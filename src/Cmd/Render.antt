-- ===== src/Cmd/Render.antt =====
-- Render and renderGroupDetails of cmd/mobydig/display.go: the text that a call writes. The styles of
-- termenv are arguments, and so is what the spinner returns at an address of a name.
pub mod Columns
pub mod Lines
pub mod Total
pub mod Found
use mobydig.Prelude.{
  Bool, List, Text, [], codes, false, if◌then◌else◌, leb, length, ltb, suc, true, zero, ℕ, ◌&&◌,
  ◌++◌, ◌+◌, ◌-◌, ◌∷◌,
}
use mobydig.Cmd.Groups.{group_names, group_of}
use mobydig.Cmd.Names.{group_name, trim_dot}
use mobydig.Dig.AddrMap.{NamedAddressSet}
use mobydig.Types.Addr.{QualifiedAddressValue, addr}
use mobydig.Types.Quality.{Quality, invalid, unverified, verified, verifying}

pub record Renderer : Type 0 where
  pub indentation : ℕ
  pub center_name : Text
  pub spinner : (fqdn address : Text) → Text

-- newRenderer; DigAndReport then sets the indentation from its flag.
abbrev pub new_renderer : (center_name : Text) → (spinner : (fqdn address : Text) → Text) → Renderer
new_renderer center_name spinner = record {
  indentation = 0;
  center_name = center_name;
  spinner = spinner;
}

pub record Styles : Type 0 where
  pub network_style : Text → Text
  pub verifying_style : Text → Text
  pub valid_style : Text → Text
  pub invalid_style : Text → Text

-- The runes of a valid UTF-8 text: its bytes but those that continue a rune.
unfoldable pub runes : Text → ℕ
runes [] = 0
runes (c ∷ cs) = (if leb 128 c && ltb c 192 then 0 else 1) + runes cs

unfoldable pub spaces : ℕ → Text
spaces zero = []
spaces (suc n) = 32 ∷ spaces n

-- `%-*s`
unfoldable pub pad : ℕ → Text → Text
unfolding spaces runes
pad width text = text ++ spaces (width - runes text)

-- The check mark and the cross, each between two spaces.
abbrev pub check_mark : Text
check_mark = 32 ∷ 0xe2 ∷ 0x9c ∷ 0x94 ∷ 32 ∷ []

abbrev pub cross : Text
cross = 32 ∷ 0xc3 ∷ 0x97 ∷ 32 ∷ []

-- The switch over the quality.
unfoldable pub show_quality : Renderer → Styles → (fqdn address : Text) → Quality → Text
show_quality r st fqdn address unverified = codes " ? " ++ address
show_quality r st fqdn address verifying =
    st.verifying_style (codes " " ++ (r.spinner fqdn address ++ (address ++ codes " ")))
show_quality r st fqdn address verified = st.valid_style (check_mark ++ (address ++ codes " "))
show_quality r st fqdn address invalid = st.invalid_style (cross ++ (address ++ codes " "))

-- The loop over the addresses; a space goes before each but the first.
unfoldable pub show_addresses : Renderer → Styles → Text → Bool → List QualifiedAddressValue → Text
unfolding show_quality
show_addresses r st fqdn is_first [] = []
show_addresses r st fqdn is_first (addr ∷ addrs) =
    (if is_first then [] else codes " ")
    ++ (show_quality r st fqdn addr.address addr.quality ++ show_addresses r st fqdn false addrs)

unfoldable pub label_columns : Renderer → (labelwidth : ℕ) → Text → Text
unfolding pad trim_dot
label_columns r labelwidth fqdn = pad r.indentation [] ++ pad labelwidth (trim_dot fqdn)

unfoldable pub render_group_details : Renderer → Styles → (labelwidth : ℕ) → NamedAddressSet → Text
unfolding label_columns show_addresses
render_group_details r st labelwidth na =
    label_columns r labelwidth na.fqdn
    ++ (show_addresses r st na.fqdn true na.addresses ++ codes "\n")

-- The two loops that determine maxlen.
unfoldable pub longest : List NamedAddressSet → ℕ → ℕ
longest [] maxlen = maxlen
longest (addr ∷ addrs) maxlen =
    longest addrs (if ltb maxlen (length addr.fqdn) then length addr.fqdn else maxlen)

unfoldable pub longest_of : List (List NamedAddressSet) → ℕ → ℕ
unfolding longest
longest_of [] maxlen = maxlen
longest_of (group ∷ groups) maxlen = longest_of groups (longest group maxlen)

-- The loop over the groups but the first; `idx` is its counter.
unfoldable pub show_networks : Styles → (idx : ℕ) → List (List NamedAddressSet) → Text
unfolding group_name
show_networks st idx [] = []
show_networks st zero (group ∷ groups) = show_networks st 1 groups
show_networks st (suc idx) (group ∷ groups) =
    (if ltb idx 1 then [] else codes " ")
    ++ (st.network_style (group_of group) ++ show_networks st (suc (suc idx)) groups)

unfoldable pub show_heading : Styles → Text → Text
show_heading st [] = codes "DNS names for containers/services on any attached network\n"
show_heading st (c ∷ cs) =
    codes "DNS names for containers/services on network "
    ++ (st.network_style (c ∷ cs) ++ codes "\n")

unfoldable pub show_names : Renderer → Styles → (labelwidth : ℕ) → List NamedAddressSet → Text
unfolding render_group_details
show_names r st labelwidth [] = []
show_names r st labelwidth (na ∷ group) =
    render_group_details r st labelwidth na ++ show_names r st labelwidth group

unfoldable pub show_groups :
    Renderer → Styles → (labelwidth : ℕ) → List (List NamedAddressSet) → Text
unfolding show_heading show_names group_name
show_groups r st labelwidth [] = []
show_groups r st labelwidth (group ∷ groups) =
    show_heading st (group_of group)
    ++ (show_names r st labelwidth group ++ show_groups r st labelwidth groups)

-- Render, of the groups that groupNames returns.
unfoldable pub render_groups : Renderer → Styles → List (List NamedAddressSet) → Text
unfolding longest_of show_networks show_groups
render_groups r st [] =
    codes "inspecting container " ++ (r.center_name ++ codes " and its networks...\n")
render_groups r st (group ∷ groups) =
    codes "networks attached to container "
    ++ (r.center_name
        ++ (codes ": "
            ++ (show_networks st 0 (group ∷ groups)
                ++ (codes "\n"
                    ++ show_groups r st (longest_of (group ∷ groups) 0) (group ∷ groups)))))

unfoldable pub render : (Text → Text) → Renderer → Styles → List NamedAddressSet → Text
unfolding group_names render_groups
render ip r st na = render_groups r st (group_names ip na)
