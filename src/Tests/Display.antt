-- ===== src/Tests/Display.antt =====
-- cmd/mobydig/display.go: three names on one network and on none.
use mobydig.Prelude.{
  All, List, Text, [], arith, codes, length, map, none, refl, text_discrete, ℕ_discrete, ◌++◌, ◌+◌,
  ◌∷◌, ◌≡◌,
}
use mobydig.Cmd.Groups.{group_names}
use mobydig.Cmd.Groups.Result.{IsGrouped, group_names-IsGrouped}
use mobydig.Cmd.Names.{IsLabel, group_and_label, group_and_label-dotted}
use mobydig.Cmd.Render.{Renderer, Styles, longest_of, new_renderer, render}
use mobydig.Cmd.Render.Columns.{IsAligned, render-IsAligned}
use mobydig.Cmd.Render.Lines.{IsPlain, IsPlainDisplay, KeepsLines, line_ends, line_ends-append}
use mobydig.Cmd.Render.Total.{line_ends-render}
use mobydig.Dig.AddrMap.{NamedAddressSet}
use mobydig.Dig.Networks.{DockerNetwork, dotted}
use mobydig.Types.Addr.{QualifiedAddressValue}
use mobydig.Types.Quality.{Quality, invalid, verified, verifying}

abbrev address_of : Text → Quality → QualifiedAddressValue
address_of a q = record { address = a; quality = q; err = none }

-- The bytes of the text instead of those of the address that it denotes.
abbrev plain_ip : Text → Text
plain_ip a = a

abbrev bar_net_a : NamedAddressSet
bar_net_a = record {
  fqdn = codes "bar.net_a.";
  addresses = address_of (codes "10.0.0.2") verified ∷ address_of (codes "10.0.0.1") invalid ∷ [];
}

abbrev three_sets : List NamedAddressSet
three_sets =
    bar_net_a
    ∷ record { fqdn = codes "foo."; addresses = address_of (codes "10.0.0.1") verifying ∷ [] }
    ∷ record { fqdn = codes "foo.net_a."; addresses = [] }
    ∷ []

-- Marks instead of colours.
abbrev marks : Styles
marks = record {
  network_style = λ t. codes "*" ++ (t ++ codes "*");
  verifying_style = λ t. t;
  valid_style = λ t. t;
  invalid_style = λ t. codes "!" ++ t;
}

abbrev some_renderer : Renderer
some_renderer = record (new_renderer (codes "center") (λ name a. codes "~ ")) { indentation = 2 }

group_names-three_sets :
    map (map (λ (s : NamedAddressSet). s.fqdn)) (group_names plain_ip three_sets)
    ≡ (codes "foo." ∷ []) ∷ (codes "bar.net_a." ∷ codes "foo.net_a." ∷ []) ∷ []
unfolding group_names ℕ_discrete text_discrete
group_names-three_sets = refl

render-three_sets :
    render plain_ip some_renderer marks (bar_net_a ∷ [])
    ≡ codes
        "networks attached to container center: \nDNS names for containers/services on network *net_a*\n  bar.net_a ! "
      ++ (0xc3 ∷ 0x97 ∷ codes " 10.0.0.1   " ++ (0xe2 ∷ 0x9c ∷ 0x94 ∷ codes " 10.0.0.2 \n"))
unfolding render ℕ_discrete text_discrete
render-three_sets = refl

group_names-IsGrouped_example : IsGrouped plain_ip three_sets (group_names plain_ip three_sets)
group_names-IsGrouped_example = group_names-IsGrouped plain_ip three_sets

three_sets-IsPlain : All IsPlain three_sets
unfolding line_ends ℕ_discrete
three_sets-IsPlain = ((refl, (refl, (refl, tt))), ((refl, (refl, tt)), ((refl, tt), tt)))

between_stars : KeepsLines marks.network_style
unfolding line_ends ℕ_discrete
between_stars t = omega (arith, line_ends-append t (codes "*"))

after_mark : KeepsLines marks.invalid_style
unfolding line_ends ℕ_discrete
after_mark t = omega arith

marks-IsPlainDisplay : IsPlainDisplay some_renderer marks
unfolding line_ends ℕ_discrete
marks-IsPlainDisplay = record {
  center = refl;
  spinning = λ name a. refl;
  network = between_stars;
  verifying_keeps = λ t. refl;
  valid_keeps = λ t. refl;
  invalid_keeps = after_mark;
}

line_ends-render_example :
    line_ends (render plain_ip some_renderer marks three_sets)
    ≡ 1 + length (group_names plain_ip three_sets) + length three_sets
line_ends-render_example =
    line_ends-render plain_ip three_sets marks-IsPlainDisplay three_sets-IsPlain

render-IsAligned_example :
    All (All (IsAligned some_renderer marks (longest_of (three_sets ∷ []) 0))) (three_sets ∷ [])
render-IsAligned_example = render-IsAligned some_renderer marks (three_sets ∷ [])

foo-IsLabel : IsLabel (codes "foo")
foo-IsLabel = (λ e. omega (arith, e), (λ e. omega (arith, e), (λ e. omega (arith, e), tt)))

net-IsLabel : IsLabel (codes "net")
net-IsLabel = (λ e. omega (arith, e), (λ e. omega (arith, e), (λ e. omega (arith, e), tt)))

abbrev some_net : DockerNetwork
some_net = record { label = codes "net"; labels = codes "foo" ∷ [] }

group_and_label-dotted_example :
    (group_and_label (dotted (codes "foo") some_net ++ codes ".") ≡ (codes "net", codes "foo"))
    × (group_and_label (codes "foo" ++ codes ".") ≡ ([], codes "foo"))
group_and_label-dotted_example =
    group_and_label-dotted (codes "foo") some_net foo-IsLabel net-IsLabel
