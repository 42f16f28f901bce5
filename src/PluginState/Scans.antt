-- ===== src/PluginState/Scans.antt =====
-- The listings of the memory backend of internal/pluginstate/store.go: `Keys`, `Len`, `TotalBytes`
-- and the pages of `Scan`. The encoding of a cursor's token is a parameter; on a result, `none` stands
-- for the empty cursor.
use Prim.Native.Nat.{lt}
use Prim.Native.String.{String, len, compare}
use text.Mathlib.Text.{◌==◌ as str_eq, starts_with}
use torana_edge.Prelude.{
  ℕ, ◌+◌, List, [], ◌∷◌, Bool, true, false, ◌&&◌, ◌||◌, not, Option, none, some, length, leb, ltb,
  ◌==◌, if◌then◌else◌,
}
use torana_edge.PluginState.{Store, Result, ok, err, bucket, entry, text_or_empty, get_versioned}

pub record PageEntry : Type 0 where
  pub key : String
  pub value : String
  pub version : String

abbrev pub is_less : String → String → Bool
is_less a b = elim (compare a b) [ lt ↦ true | _ ↦ false ]

unfoldable pub insert_sorted : String → List String → List String
insert_sorted key [] = key ∷ []
insert_sorted key (k ∷ keys) =
    let later = insert_sorted key keys in if is_less k key then k ∷ later else key ∷ k ∷ keys

-- The keys of a bucket that pass a test, in order.
unfoldable pub sorted_keys : (String → Bool) → List (String × String) → List String
unfolding insert_sorted
sorted_keys wanted [] = []
sorted_keys wanted ((key, value) ∷ rest) =
    let others = sorted_keys wanted rest in if wanted key then insert_sorted key others else others

unfoldable pub keys : Store → String → List String
unfolding sorted_keys
keys s plugin = if str_eq plugin "" then [] else sorted_keys (λ key. true) (bucket plugin s.values)

unfoldable pub len_of : Store → String → ℕ
len_of s plugin = length (bucket plugin s.values)

unfoldable pub total_bytes : Store → ℕ
total_bytes s = s.total

abbrev found_value : Option (String × String) → Option String
found_value none = none
found_value (some (value, version)) = some value

-- `Get`, which forgets the version.
unfoldable pub get : Store → String → String → Result (Option String)
get s plugin key = elim (get_versioned s plugin key) [
  | ok found ↦ ok (found_value found)
  | err e ↦ err e
]

abbrev pub page_entry : Store → String → String → PageEntry
page_entry s plugin key = record {
  key = key;
  value = text_or_empty (entry plugin key s.values);
  version = text_or_empty (entry plugin key s.versions);
}

abbrev pub page_entry_size : PageEntry → ℕ
page_entry_size e = len e.key + len e.value + len e.version

-- A page with the key that the next one starts after, if there is more.
pub data Page : Type 0 where
  page : List PageEntry → Option String → Page
  first_too_large : Page

abbrev pub add_to_page : PageEntry → Page → Page
add_to_page e (page out next) = page (e ∷ out) next
add_to_page e first_too_large = first_too_large

-- The loop, with the entries so far counted and measured, and the key of the last one.
unfoldable pub page_loop : ℕ → ℕ → ℕ → ℕ → String → List PageEntry → Page
page_loop limit max_bytes count used last [] = page [] none
page_loop limit max_bytes count used last (e ∷ entries) =
    let size = page_entry_size e in
    let later = page_loop limit max_bytes (count + 1) (used + size) e.key entries in
    if count == 0 && ltb max_bytes size
    then first_too_large
    else if leb limit count || ltb max_bytes (used + size)
    then page [] (some last)
    else add_to_page e later

unfoldable pub page_entries : Store → String → List String → List PageEntry
page_entries s plugin [] = []
page_entries s plugin (key ∷ keys) = page_entry s plugin key ∷ page_entries s plugin keys

-- The entries after a cursor, in the order of their keys.
unfoldable pub candidates : Store → String → String → String → List PageEntry
unfolding sorted_keys page_entries
candidates s plugin prefix last =
    page_entries s plugin
      (sorted_keys (λ key. starts_with key prefix && is_less last key) (bucket plugin s.values))

unfoldable pub scan_memory : Store → String → String → String → ℕ → ℕ → Page
unfolding candidates page_loop
scan_memory s plugin prefix last limit max_bytes =
    page_loop limit max_bytes 0 0 "" (candidates s plugin prefix last)

pub data Scanned : Type 0 where
  plugin_required invalid_bounds invalid_cursor too_large : Scanned
  scanned : List PageEntry → Option String → Scanned

pub record CursorToken : Type 0 where
  pub plugin : String
  pub prefix : String
  pub last : String

module _ (decode_token : String → Option CursorToken) (encode_token : CursorToken → String) where
  abbrev pub own_token : String → String → Option CursorToken → Option String
  own_token plugin prefix none = none
  own_token plugin prefix (some token) =
      if not (str_eq token.plugin plugin) || not (str_eq token.prefix prefix)
      then none
      else some token.last

  unfoldable pub decode_cursor : String → String → String → Option String
  decode_cursor plugin prefix cursor =
      if str_eq cursor "" then some "" else own_token plugin prefix (decode_token cursor)

  unfoldable pub encode_cursor : String → String → String → String
  encode_cursor plugin prefix last =
      encode_token (record { plugin = plugin; prefix = prefix; last = last })

  abbrev pub with_cursor : String → String → Page → Scanned
  with_cursor plugin prefix first_too_large = too_large
  with_cursor plugin prefix (page out none) = scanned out none
  with_cursor plugin prefix (page out (some last)) =
      scanned out (some (encode_cursor plugin prefix last))

  unfoldable pub scan : Store → String → String → String → ℕ → ℕ → Scanned
  unfolding scan_memory decode_cursor encode_cursor
  scan s plugin prefix cursor limit max_bytes =
      if str_eq plugin ""
      then plugin_required
      else if ltb limit 1 || ltb 256 limit || ltb max_bytes 1
      then invalid_bounds
      else elim (decode_cursor plugin prefix cursor) [
        | none ↦ invalid_cursor
        | some last ↦ with_cursor plugin prefix (scan_memory s plugin prefix last limit max_bytes)
      ]
