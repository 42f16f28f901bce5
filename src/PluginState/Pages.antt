-- ===== src/PluginState/Pages.antt =====
-- What a page of a scan of internal/pluginstate/store.go holds, said of the store and not of the scan.
use Prim.Native.String.{String}
use text.Mathlib.Text.{◌==◌ as str_eq, starts_with}
use text.Mathlib.TextEquality.{eq_iff}
use torana_edge.Prelude.{
  ℕ, ◌+◌, ◌≤◌, ◌≡◌, refl, ◌∙◌, sym, ap, List, [], ◌∷◌, ◌++◌, map, Bool, true, false, ◌&&◌, ◌||◌,
  not, Option, none, some, arith, length, leb, ltb, ◌==◌, Bool-cases, inl, inr,
}
use torana_edge.Prelude.Assoc.{lookup}
use torana_edge.PluginState.{Store, bucket, entry, is_some}
use torana_edge.PluginState.Scans.{
  PageEntry, page, first_too_large, page_entry, page_entry_size, page_loop, page_entries, is_less,
  insert_sorted, sorted_keys, candidates, scan_memory,
}

abbrev pub page_size : List PageEntry → ℕ
page_size [] = 0
page_size (e ∷ out) = page_entry_size e + page_size out

-- The key of the last entry, or the given one before any.
abbrev pub last_key : String → List PageEntry → String
last_key last [] = last
last_key last (e ∷ out) = last_key e.key out

abbrev pub has_key : String → List String → Bool
has_key key [] = false
has_key key (k ∷ keys) = str_eq k key || has_key key keys

-- No key comes before the one ahead of it.
abbrev pub leads : String → List String → Bool
leads a [] = true
leads a (b ∷ keys) = is_less a b || not (is_less b a)

abbrev pub in_order : List String → Bool
in_order [] = true
in_order (a ∷ keys) = leads a keys && in_order keys

leads-insert_sorted :
    (a key : String) (keys : List String)
    → is_less a key ≡ true
    → leads a keys ≡ true
    → leads a (insert_sorted key keys) ≡ true
unfolding insert_sorted
leads-insert_sorted a key [] less h = ground (arith, less)
leads-insert_sorted a key (k ∷ keys) less h = ground (arith, less, h)

in_order-insert_sorted :
    (key : String) (keys : List String)
    → in_order keys ≡ true
    → in_order (insert_sorted key keys) ≡ true
unfolding insert_sorted
in_order-insert_sorted key [] h = refl
in_order-insert_sorted key (k ∷ keys) h =
    ground (arith, in_order-insert_sorted key keys, leads-insert_sorted k key keys)

has_key-insert_sorted :
    (x key : String) (keys : List String)
    → has_key x (insert_sorted key keys) ≡ str_eq key x || has_key x keys
unfolding insert_sorted
has_key-insert_sorted x key [] = refl
has_key-insert_sorted x key (k ∷ keys) = ground (arith, has_key-insert_sorted x key keys)

in_order-sorted_keys :
    (wanted : String → Bool) (b : List (String × String)) → in_order (sorted_keys wanted b) ≡ true
unfolding sorted_keys
in_order-sorted_keys wanted [] = refl
in_order-sorted_keys wanted ((key, value) ∷ rest) =
    ground (
      arith,
      in_order-sorted_keys wanted rest,
      in_order-insert_sorted key (sorted_keys wanted rest),
    )

has_key-sorted_keys :
    (wanted : String → Bool) (x : String) (b : List (String × String))
    → has_key x (sorted_keys wanted b) ≡ wanted x && is_some (lookup x b)
unfolding sorted_keys lookup
has_key-sorted_keys wanted x [] = ground arith
has_key-sorted_keys wanted x ((key, value) ∷ rest) = elim (Bool-cases (str_eq key x)) [
  | inl same ↦
      let alike : wanted key ≡ wanted x = ap wanted ((eq_iff key x).0 same) in
      ground (
        arith,
        same,
        alike,
        has_key-sorted_keys wanted x rest,
        has_key-insert_sorted x key (sorted_keys wanted rest),
      )
  | inr apart ↦ ground (
    arith,
    apart,
    has_key-sorted_keys wanted x rest,
    has_key-insert_sorted x key (sorted_keys wanted rest),
  )
]

page_entries-map :
    (s : Store) (plugin : String) (keys : List String)
    → page_entries s plugin keys ≡ map (page_entry s plugin) keys
unfolding page_entries
page_entries-map s plugin [] = refl
page_entries-map s plugin (key ∷ keys) =
    ap (◌∷◌ (page_entry s plugin key)) (page_entries-map s plugin keys)

pub page_loop-split :
    (limit max_bytes count used : ℕ) (last : String) (entries out : List PageEntry)
    (next : Option String)
    → count ≤ limit
    → used ≤ max_bytes
    → page_loop limit max_bytes count used last entries ≡ page out next
    → (rest : List PageEntry) × (entries ≡ out ++ rest)
      × (count + length out ≤ limit)
      × (used + page_size out ≤ max_bytes)
      × (next ≡ none → rest ≡ [])
      × ((key : String) → next ≡ some key → last_key last out ≡ key)
unfolding page_loop
page_loop-split limit max_bytes count used last [] out next c u h =
    ([], ground arith, ground arith, ground arith, λ n. refl, λ key n. absurd (ground (arith, n)))
page_loop-split limit max_bytes count used last (e ∷ entries) out next c u h =
    let size = page_entry_size e in
    elim (Bool-cases (count == 0 && ltb max_bytes size)) [
      | inl large ↦ absurd (ground (arith, large))
      | inr fine ↦ elim (Bool-cases (leb limit count || ltb max_bytes (used + size))) [
        | inl full ↦
            let nothing : [] ≡ out = ground (arith, fine, full) in
            (
              e ∷ entries,
              ap (λ o. o ++ e ∷ entries) nothing,
              ground (arith, nothing),
              ground (arith, nothing),
              λ n. absurd (ground (arith, fine, full, n)),
              λ key n. ground (arith, fine, full, n, nothing),
            )
        | inr room ↦
            elim (page_loop limit max_bytes (count + 1) (used + size) e.key entries)
                as (λ p.
                  page_loop limit max_bytes (count + 1) (used + size) e.key entries ≡ p
                  → (rest : List PageEntry) × (e ∷ entries ≡ out ++ rest)
                    × (count + length out ≤ limit)
                    × (used + page_size out ≤ max_bytes)
                    × (next ≡ none → rest ≡ [])
                    × ((key : String) → next ≡ some key → last_key last out ≡ key)) [
                      | first_too_large ↦ λ q. absurd (ground (arith, fine, room, q))
                      | page more next' ↦ λ q.
                          let whole : (e ∷ more ≡ out) × (next' ≡ next) =
                            (ground (arith, fine, room, q), ground (arith, fine, room, q)) in
                          let (rest, split, counted, measured, complete, onward) =
                            page_loop-split limit max_bytes (count + 1) (used + size) e.key entries
                              more next' (ground (arith, room)) (ground (arith, room)) q in
                          (
                            rest,
                            ap (◌∷◌ e) split ∙ ap (λ o. o ++ rest) whole.0,
                            ground (arith, whole.0, counted),
                            ground (arith, whole.0, measured),
                            λ n. complete (whole.1 ∙ n),
                            λ key n. ap (last_key last) (sym whole.0) ∙ onward key (whole.1 ∙ n),
                          )
                    ]
              refl
      ]
    ]

-- A page of a scan is a first part of the entries of the plugin's keys that have the prefix and come
-- after the cursor's key, each of these keys and no other, none of them before the one ahead of it;
-- the page is no longer than the limit and no larger than the budget. Without a next page it is all
-- of them, and a next page starts after the key of the last entry.
pub scan_memory-listed :
    (s : Store) (plugin prefix last : String) (limit max_bytes : ℕ) (out : List PageEntry)
    (next : Option String)
    → scan_memory s plugin prefix last limit max_bytes ≡ page out next
    → (keys : List String) × (rest : List PageEntry) × (map (page_entry s plugin) keys
        ≡ out ++ rest)
      × (in_order keys ≡ true)
      × ((key : String)
          → has_key key keys
            ≡ (starts_with key prefix && is_less last key) && is_some (entry plugin key s.values))
      × (length out ≤ limit)
      × (page_size out ≤ max_bytes)
      × (next ≡ none → rest ≡ [])
      × ((key : String) → next ≡ some key → last_key "" out ≡ key)
unfolding scan_memory candidates
scan_memory-listed s plugin prefix last limit max_bytes out next h =
    let wanted = λ (key : String). starts_with key prefix && is_less last key in
    let keys = sorted_keys wanted (bucket plugin s.values) in
    let (rest, split, counted, measured, complete, onward) =
      page_loop-split limit max_bytes 0 0 "" (candidates s plugin prefix last) out next
        (omega arith) (omega arith) h in
    (
      keys,
      rest,
      sym (page_entries-map s plugin keys) ∙ split,
      in_order-sorted_keys wanted (bucket plugin s.values),
      λ key. has_key-sorted_keys wanted key (bucket plugin s.values),
      omega (arith, counted),
      omega (arith, measured),
      complete,
      onward,
    )
