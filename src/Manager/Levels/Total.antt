-- ===== src/Manager/Levels/Total.antt =====
-- The numbers of the level list add up to the number of players.
use ogmp_server.Base.{
  ℕ, ◌+◌, ◌≡◌, refl, ◌∙◌, true, false, ◌||◌, List, [], ◌∷◌, ◌++◌, arith, length, All, if◌then◌else◌,
  Bool-cases, inl, inr,
}
use ogmp_server.Text.{Str, str_eq, c_str, str_eq_iff, str_eq_refl}
use ogmp_server.StringMap.{StringMap}
use ogmp_server.Config.{Config}
use ogmp_server.Manager.{Heap, Server, get_nr_players}
use ogmp_server.Manager.Levels.{
  TempLevelInfo, count_players, default_levels, is_on_default, already_added, add_level,
  custom_levels, temp_levels,
}

-- No level of the list is there twice.
abbrev pub IsDistinct : List TempLevelInfo → Type 0
IsDistinct [] = Unit
IsDistinct (i ∷ is) = (already_added i.level_path is ≡ false) × IsDistinct is

-- The same of the settings' maps.
abbrev pub DistinctMaps : List (Str × Str) → Type 0
DistinctMaps [] = Unit
DistinctMaps ((name, path) ∷ maps) = (is_on_default (c_str path) maps ≡ false) × DistinctMaps maps

pub total : List TempLevelInfo → ℕ
total [] = 0
total (i ∷ is) = i.nr_players + total is

-- Every level of the list has the number of the players in `items` that are on it.
abbrev Counted : Heap → StringMap ℕ → List TempLevelInfo → Type 0
Counted heap items = All (λ i. i.nr_players ≡ count_players heap i.level_path items)

-- Every player in `items` is on a level of the list.
abbrev Covered : Heap → StringMap ℕ → List TempLevelInfo → Type 0
Covered heap items infos = All (λ e. already_added (heap e.1).level_path infos ≡ true) items

-- The levels' players, counted in the entries.
tally : Heap → StringMap ℕ → List TempLevelInfo → ℕ
tally heap items [] = 0
tally heap items (i ∷ is) = count_players heap i.level_path items + tally heap items is

total-tally :
    (heap : Heap) (items : StringMap ℕ) (infos : List TempLevelInfo)
    → Counted heap items infos
    → total infos ≡ tally heap items infos
unfolding total tally
total-tally heap items [] c = refl
total-tally heap items (i ∷ is) c = omega (arith, c.0, total-tally heap items is c.1)

tally-nil : (heap : Heap) (infos : List TempLevelInfo) → tally heap [] infos ≡ 0
unfolding tally count_players
tally-nil heap [] = refl
tally-nil heap (i ∷ is) = omega (arith, tally-nil heap is)

-- One more player is counted once, on the one level that he is on.
tally-cons :
    (heap : Heap) (k : Str) (p : ℕ) (items : StringMap ℕ) (infos : List TempLevelInfo)
    → IsDistinct infos
    → tally heap ((k, p) ∷ items) infos
      ≡ (if already_added (heap p).level_path infos then 1 else 0) + tally heap items infos
unfolding tally count_players already_added
tally-cons heap k p items [] d = omega arith
tally-cons heap k p items (i ∷ is) d = ground (
  arith,
  str_eq_iff (heap p).level_path i.level_path,
  str_eq_iff i.level_path (heap p).level_path,
  d.0,
  tally-cons heap k p items is d.1,
)

tally-Covered :
    (heap : Heap) (items : StringMap ℕ) (infos : List TempLevelInfo)
    → IsDistinct infos
    → Covered heap items infos
    → tally heap items infos ≡ length items
tally-Covered heap [] infos d c = tally-nil heap infos
tally-Covered heap ((k, p) ∷ items) infos d c =
    tally-cons heap k p items infos d ∙ rw c.0 (omega (arith, tally-Covered heap items infos d c.1))

module _ (maps : List (Str × Str)) (heap : Heap) (clients : StringMap ℕ) where
  added-default :
      (level : Str) (ms : List (Str × Str))
      → already_added level (default_levels heap clients ms) ≡ is_on_default level ms
  unfolding already_added default_levels is_on_default
  added-default level [] = refl
  added-default level ((name, path) ∷ ms) =
      ground (
        arith,
        str_eq_iff (c_str path) level,
        str_eq_iff level (c_str path),
        added-default level ms,
      )

  default-IsDistinct :
      (ms : List (Str × Str)) → DistinctMaps ms → IsDistinct (default_levels heap clients ms)
  unfolding default_levels
  default-IsDistinct [] d = tt
  default-IsDistinct ((name, path) ∷ ms) d =
      (added-default (c_str path) ms ∙ d.0, default-IsDistinct ms d.1)

  default-Counted : (ms : List (Str × Str)) → Counted heap clients (default_levels heap clients ms)
  unfolding default_levels
  default-Counted [] = tt
  default-Counted ((name, path) ∷ ms) = (refl, default-Counted ms)

  added-append :
      (level : Str) (infos : List TempLevelInfo) (i : TempLevelInfo)
      → already_added level (infos ++ i ∷ [])
        ≡ (already_added level infos || str_eq i.level_path level)
  unfolding already_added
  added-append level [] i = ground arith
  added-append level (j ∷ is) i = ground (arith, added-append level is i)

  append-IsDistinct :
      (infos : List TempLevelInfo) (i : TempLevelInfo)
      → already_added i.level_path infos ≡ false
      → IsDistinct infos
      → IsDistinct (infos ++ i ∷ [])
  unfolding already_added
  append-IsDistinct [] i h d = (refl, tt)
  append-IsDistinct (j ∷ is) i h d = ground (
    arith,
    str_eq_iff i.level_path j.level_path,
    str_eq_iff j.level_path i.level_path,
    added-append j.level_path is i,
    append-IsDistinct is i,
  )

  append-Counted :
      (infos : List TempLevelInfo) (i : TempLevelInfo)
      → i.nr_players ≡ count_players heap i.level_path clients
      → Counted heap clients infos
      → Counted heap clients (infos ++ i ∷ [])
  append-Counted [] i e c = (e, tt)
  append-Counted (j ∷ is) i e c = (c.0, append-Counted is i e c.1)

  -- What one round of the second loop keeps and does.
  record IsList (infos : List TempLevelInfo) : Type 0 where
    distinct : IsDistinct infos
    counted : Counted heap clients infos
    defaults : (level : Str) → is_on_default level maps ≡ true → already_added level infos ≡ true

  add_level-IsList :
      (p : ℕ) (infos : List TempLevelInfo)
      → IsList infos
      → IsList (add_level maps heap clients p infos)
        × (already_added (heap p).level_path (add_level maps heap clients p infos) ≡ true)
        × ((level : Str)
            → already_added level infos ≡ true
            → already_added level (add_level maps heap clients p infos) ≡ true)
  add_level-IsList p infos v =
      elim (Bool-cases
        (is_on_default (heap p).level_path maps || already_added (heap p).level_path infos)) [
          | inl old ↦
              unfold add_level in
              rw old (v, ground (arith, v.defaults (heap p).level_path), λ level h. h)
          | inr new ↦
              unfold add_level in
              rw new (
                record {
                  distinct = append-IsDistinct infos info (ground arith) v.distinct;
                  counted = append-Counted infos info refl v.counted;
                  defaults = λ level h.
                      rw (added-append level infos info) (ground (arith, v.defaults level h));
                },
                rw (added-append (heap p).level_path infos info)
                    (ground (arith, str_eq_refl (heap p).level_path)),
                λ level h. rw (added-append level infos info) (ground arith),
              )
        ]
    where
      info : TempLevelInfo
      info = record {
        level_name = (heap p).level_name;
        level_path = (heap p).level_path;
        nr_players = count_players heap (heap p).level_path clients;
      }

  custom-IsList :
      (items : StringMap ℕ) (infos : List TempLevelInfo)
      → IsList infos
      → IsList (custom_levels maps heap clients items infos)
        × Covered heap items (custom_levels maps heap clients items infos)
        × ((level : Str)
            → already_added level infos ≡ true
            → already_added level (custom_levels maps heap clients items infos) ≡ true)
  unfolding custom_levels
  custom-IsList [] infos v = (v, tt, λ level h. h)
  custom-IsList ((k, p) ∷ items) infos v =
      let (v', here, mono) = add_level-IsList p infos v in
      let (w, rest, mono') = custom-IsList items (add_level maps heap clients p infos) v' in
      (w, (mono' (heap p).level_path here, rest), λ level h. mono' level (mono level h))

-- Every player is counted on exactly one level: the numbers of the level list add up to the number
-- of players, provided that the settings name no map twice.
pub total-temp_levels :
    (config : Config) (s : Server)
    → DistinctMaps config.map_list
    → total (temp_levels config s) ≡ get_nr_players s
total-temp_levels config s d =
    let (v, covered, _) =
      custom-IsList config.map_list s.heap s.clients s.clients
        (default_levels s.heap s.clients config.map_list) start in
    unfold temp_levels get_nr_players in
    (total-tally s.heap s.clients _ v.counted ∙ tally-Covered s.heap s.clients _ v.distinct covered)
  where
    start :
        IsList config.map_list s.heap s.clients (default_levels s.heap s.clients config.map_list)
    start = record {
      distinct = default-IsDistinct config.map_list s.heap s.clients config.map_list d;
      counted = default-Counted config.map_list s.heap s.clients config.map_list;
      defaults =
          λ level h. added-default config.map_list s.heap s.clients level config.map_list ∙ h;
    }
