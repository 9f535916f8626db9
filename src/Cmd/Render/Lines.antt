-- ===== src/Cmd/Render/Lines.antt =====
-- The lines of the display.
use mobydig.Prelude.{
  All, Bool, List, Text, [], arith, codes, false, ite, length, refl, suc, true, zero, ℕ, ℕ_discrete,
  ◌++◌, ◌+◌, ◌-◌, ◌∷◌, ◌≡◌,
}
use mobydig.Cmd.Names.{trim_dot}
use mobydig.Cmd.Render.{
  Renderer, Styles, check_mark, cross, label_columns, pad, render_group_details, runes,
  show_addresses, show_names, show_quality, spaces,
}
use mobydig.Dig.AddrMap.{NamedAddressSet}
use mobydig.Types.Addr.{QualifiedAddressValue}
use mobydig.Types.Quality.{Quality, invalid, unverified, verified, verifying}

unfoldable pub line_ends : Text → ℕ
line_ends [] = 0
line_ends (c ∷ cs) = ite (ℕ_discrete c 10) 1 0 + line_ends cs

-- What is displayed has no line end of its own.
abbrev pub IsPlain : NamedAddressSet → Type 0
IsPlain na = (line_ends na.fqdn ≡ 0) × All (λ a. line_ends a.address ≡ 0) na.addresses

abbrev pub KeepsLines : (Text → Text) → Type 0
KeepsLines style = (text : Text) → line_ends (style text) ≡ line_ends text

pub record IsPlainDisplay (r : Renderer) (st : Styles) : Type 0 where
  pub center : line_ends r.center_name ≡ 0
  pub spinning : (fqdn address : Text) → line_ends (r.spinner fqdn address) ≡ 0
  pub network : KeepsLines st.network_style
  pub verifying_keeps : KeepsLines st.verifying_style
  pub valid_keeps : KeepsLines st.valid_style
  pub invalid_keeps : KeepsLines st.invalid_style

pub line_ends-append : (xs ys : Text) → line_ends (xs ++ ys) ≡ line_ends xs + line_ends ys
unfolding line_ends
line_ends-append [] ys = omega arith
line_ends-append (x ∷ xs) ys = omega (arith, line_ends-append xs ys)

line_ends-spaces : (n : ℕ) → line_ends (spaces n) ≡ 0
unfolding line_ends spaces
line_ends-spaces zero = refl
line_ends-spaces (suc n) = ground (arith, line_ends-spaces n)

line_ends-pad : (width : ℕ) (text : Text) → line_ends (pad width text) ≡ line_ends text
unfolding pad
line_ends-pad width text = omega (
  arith,
  line_ends-append text (spaces (width - runes text)),
  line_ends-spaces (width - runes text),
)

pub line_ends-trim_dot : (xs : Text) → line_ends xs ≡ 0 → line_ends (trim_dot xs) ≡ 0
unfolding line_ends trim_dot
line_ends-trim_dot [] h = refl
line_ends-trim_dot (x ∷ []) h = ground (arith, h)
line_ends-trim_dot (x ∷ y ∷ xs) h = ground (arith, line_ends-trim_dot (y ∷ xs), h)

module _ {r : Renderer} {st : Styles} (clean : IsPlainDisplay r st) where
  line_ends-show_quality :
      (fqdn address : Text) (q : Quality)
      → line_ends address ≡ 0
      → line_ends (show_quality r st fqdn address q) ≡ 0
  unfolding show_quality line_ends ℕ_discrete
  line_ends-show_quality fqdn address unverified h = omega (arith, h)
  line_ends-show_quality fqdn address verifying h = omega (
    arith,
    h,
    clean.verifying_keeps (codes " " ++ (r.spinner fqdn address ++ (address ++ codes " "))),
    line_ends-append (r.spinner fqdn address) (address ++ codes " "),
    line_ends-append address (codes " "),
    clean.spinning fqdn address,
  )
  line_ends-show_quality fqdn address verified h = omega (
    arith,
    h,
    clean.valid_keeps (check_mark ++ (address ++ codes " ")),
    line_ends-append address (codes " "),
  )
  line_ends-show_quality fqdn address invalid h = omega (
    arith,
    h,
    clean.invalid_keeps (cross ++ (address ++ codes " ")),
    line_ends-append address (codes " "),
  )

  line_ends-show_addresses :
      (fqdn : Text) (is_first : Bool) (addrs : List QualifiedAddressValue)
      → All (λ a. line_ends a.address ≡ 0) addrs
      → line_ends (show_addresses r st fqdn is_first addrs) ≡ 0
  unfolding show_addresses line_ends ℕ_discrete
  line_ends-show_addresses fqdn is_first [] h = refl
  line_ends-show_addresses fqdn true (a ∷ addrs) (p, h) = omega (
    arith,
    line_ends-append (show_quality r st fqdn a.address a.quality)
        (show_addresses r st fqdn false addrs),
    line_ends-show_quality fqdn a.address a.quality p,
    line_ends-show_addresses fqdn false addrs h,
  )
  line_ends-show_addresses fqdn false (a ∷ addrs) (p, h) = omega (
    arith,
    line_ends-append (show_quality r st fqdn a.address a.quality)
        (show_addresses r st fqdn false addrs),
    line_ends-show_quality fqdn a.address a.quality p,
    line_ends-show_addresses fqdn false addrs h,
  )

  line_ends-render_group_details :
      (labelwidth : ℕ) (na : NamedAddressSet)
      → IsPlain na
      → line_ends (render_group_details r st labelwidth na) ≡ 1
  unfolding render_group_details label_columns line_ends ℕ_discrete
  line_ends-render_group_details labelwidth na (p, h) = omega (
    arith,
    line_ends-append (label_columns r labelwidth na.fqdn)
        (show_addresses r st na.fqdn true na.addresses ++ codes "\n"),
    line_ends-append (pad r.indentation []) (pad labelwidth (trim_dot na.fqdn)),
    line_ends-pad r.indentation [],
    line_ends-pad labelwidth (trim_dot na.fqdn),
    line_ends-trim_dot na.fqdn p,
    line_ends-append (show_addresses r st na.fqdn true na.addresses) (codes "\n"),
    line_ends-show_addresses na.fqdn true na.addresses h,
  )

  pub line_ends-show_names :
      (labelwidth : ℕ) (group : List NamedAddressSet)
      → All IsPlain group
      → line_ends (show_names r st labelwidth group) ≡ length group
  unfolding show_names line_ends
  line_ends-show_names labelwidth [] h = refl
  line_ends-show_names labelwidth (na ∷ group) (p, h) = omega (
    arith,
    line_ends-append (render_group_details r st labelwidth na) (show_names r st labelwidth group),
    line_ends-render_group_details labelwidth na p,
    line_ends-show_names labelwidth group h,
  )
