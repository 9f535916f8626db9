-- ===== src/Cmd/Render/Columns.antt =====
-- The columns of the addresses, across all groups.
use mobydig.Prelude.{
  All, All-map, List, Text, [], arith, codes, if◌then◌else◌, length, ltb, refl, suc, true, zero, ℕ,
  ◌++◌, ◌+◌, ◌-◌, ◌∷◌, ◌≡◌, ◌≤◌,
}
use mobydig.Cmd.Names.{trim_dot}
use mobydig.Cmd.Render.{
  Renderer, Styles, label_columns, longest, longest_of, pad, render_group_details, runes,
  show_addresses, spaces,
}
use mobydig.Dig.AddrMap.{NamedAddressSet}

runes-append : (xs ys : Text) → runes (xs ++ ys) ≡ runes xs + runes ys
unfolding runes
runes-append [] ys = omega arith
runes-append (x ∷ xs) ys = omega (arith, runes-append xs ys)

runes-spaces : (n : ℕ) → runes (spaces n) ≡ n
unfolding runes spaces
runes-spaces zero = refl
runes-spaces (suc n) = omega (arith, runes-spaces n)

runes-le-length : (xs : Text) → runes xs ≤ length xs
unfolding runes
runes-le-length [] = omega arith
runes-le-length (x ∷ xs) = ground (arith, runes-le-length xs)

length-trim_dot : (xs : Text) → length (trim_dot xs) ≤ length xs
unfolding trim_dot
length-trim_dot [] = omega arith
length-trim_dot (x ∷ []) = ground arith
length-trim_dot (x ∷ y ∷ xs) = omega (arith, length-trim_dot (y ∷ xs))

-- A text that is not too long fills the width.
runes-pad : (width : ℕ) (text : Text) → runes text ≤ width → runes (pad width text) ≡ width
unfolding pad
runes-pad width text h =
    omega
      (arith, runes-append text (spaces (width - runes text)), runes-spaces (width - runes text))

longest-le : (addrs : List NamedAddressSet) (n : ℕ) → n ≤ longest addrs n
unfolding longest
longest-le [] n = omega arith
longest-le (a ∷ addrs) n =
    let m = if ltb n (length a.fqdn) then length a.fqdn else n in
    ground (arith, longest-le addrs (length a.fqdn), longest-le addrs n)

longest-All :
    (addrs : List NamedAddressSet) (n : ℕ) → All (λ a. length a.fqdn ≤ longest addrs n) addrs
unfolding longest
longest-All [] n = tt
longest-All (a ∷ addrs) n =
    (ground (arith, longest-le addrs (length a.fqdn), longest-le addrs n), longest-All addrs _)

longest_of-le : (groups : List (List NamedAddressSet)) (n : ℕ) → n ≤ longest_of groups n
unfolding longest_of
longest_of-le [] n = omega arith
longest_of-le (g ∷ groups) n = omega (arith, longest-le g n, longest_of-le groups (longest g n))

longest_of-All :
    (groups : List (List NamedAddressSet)) (n : ℕ)
    → All (All (λ a. length a.fqdn ≤ longest_of groups n)) groups
unfolding longest_of
longest_of-All [] n = tt
longest_of-All (g ∷ groups) n = (
  All-map (λ a h. omega (arith, h, longest_of-le groups (longest g n))) g (longest-All g n),
  longest_of-All groups (longest g n),
)

-- The line of a name is its label, filled up to the columns of the indentation and of the longest
-- name, and then the addresses.
abbrev pub IsAligned : Renderer → Styles → ℕ → NamedAddressSet → Type 0
IsAligned r st labelwidth na =
    (label : Text) × (runes label ≡ r.indentation + labelwidth)
    × (render_group_details r st labelwidth na
        ≡ label ++ (show_addresses r st na.fqdn true na.addresses ++ codes "\n"))

render_group_details-IsAligned :
    (r : Renderer) (st : Styles) (labelwidth : ℕ) (na : NamedAddressSet)
    → length na.fqdn ≤ labelwidth
    → IsAligned r st labelwidth na
unfolding render_group_details label_columns runes
render_group_details-IsAligned r st labelwidth na h = (
  label_columns r labelwidth na.fqdn,
  omega (
    arith,
    runes-append (pad r.indentation []) (pad labelwidth (trim_dot na.fqdn)),
    runes-pad r.indentation [] (omega arith),
    runes-pad labelwidth (trim_dot na.fqdn)
        (omega (arith, h, runes-le-length (trim_dot na.fqdn), length-trim_dot na.fqdn)),
  ),
  refl,
)

-- With the width that Render determines, the addresses of all names of all groups begin at one
-- column, that after the indentation and as many runes as the longest name has bytes.
pub render-IsAligned :
    (r : Renderer) (st : Styles) (groups : List (List NamedAddressSet))
    → All (All (IsAligned r st (longest_of groups 0))) groups
render-IsAligned r st groups =
    All-map (λ g. All-map (λ na. render_group_details-IsAligned r st (longest_of groups 0) na) g)
      groups (longest_of-All groups 0)
