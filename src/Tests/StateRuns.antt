-- ===== src/Tests/StateRuns.antt =====
-- The memory backend of internal/pluginstate/store.go, with versions written as tallies.
use Prim.Native.String.{String, [] as str_nil, ◌∷◌ as str_cons}
use text.Mathlib.Text.{◌==◌ as str_eq, starts_with}
use torana_edge.Prelude.{
  ◌≡◌, refl, ap, List, [], ◌∷◌, ◌++◌, map, none, some, Option, true, false, ◌&&◌, ℕ, zero, suc,
  arith, length, ◌≤◌, Bool-cases, inl, inr,
}
use torana_edge.Prelude.Assoc.{lookup, insert, remove}
use torana_edge.PluginState.{
  Store, ok, entry, is_some, get_versioned, compare_and_set, set, set_memory, write, mismatch,
  validate_write, entry_size, erase, delete, compare_and_delete, drop_entry,
}
use torana_edge.PluginState.Entries.{Op, put, drop, drop_if, apply_all}
use torana_edge.PluginState.Versions.{IsVersioned, apply-IsVersioned, get_versioned-stable}
use torana_edge.PluginState.Scans.{
  PageEntry, page, scan_memory, candidates, sorted_keys, insert_sorted, page_entries, page_loop,
  page_entry, is_less, CursorToken, scan, scanned, encode_cursor, decode_cursor,
}
use torana_edge.PluginState.Resumed.{all_after, token_of, scan-resumed}
use text.Mathlib.TextEquality.{eq_iff}
use torana_edge.PluginState.Pages.{page_size, last_key, has_key, in_order, scan_memory-listed}
use torana_edge.PluginState.Limits.{IsWithin, apply_all-IsWithin}
use torana_edge.PluginState.Quota.{get_versioned-compare_and_set, FoundAs}

abbrev pub tally : ℕ → String
tally zero = ""
tally (suc n) = str_cons "|" (tally n)

pub tally-distinct : (i j : ℕ) → tally i ≡ tally j → i ≡ j
tally-distinct zero zero h = refl
tally-distinct zero (suc j) h = cc
tally-distinct (suc i) zero h = cc
tally-distinct (suc i) (suc j) h = ap suc (tally-distinct i j cc)

abbrev pub empty_store : Store
empty_store = record {
  values = [];
  versions = [];
  counter = 0;
  total = 0;
  path = "";
  max_value_bytes = 64;
  max_total_bytes = 100;
  max_keys_per_plugin = 2;
  read_only = false;
}

pub empty_store-IsVersioned : IsVersioned tally empty_store
unfolding lookup
empty_store-IsVersioned p k h = absurd (ground arith)

abbrev one_value : Store
one_value = record empty_store {
  values = ("p", ("k", "v") ∷ []) ∷ [];
  versions = ("p", ("k", "|") ∷ []) ∷ [];
  counter = 1;
  total = 2;
}

first_write : compare_and_set tally "p" "k" "v" none empty_store ≡ (one_value, ok (true, "|"))
unfolding compare_and_set set set_memory write mismatch validate_write entry_size lookup insert
first_write = refl

get_versioned-compare_and_set_example :
    ((got : Option (String × String)) × (get_versioned empty_store "p" "k" ≡ ok got)
      × FoundAs tally none got)
    × (get_versioned one_value "p" "k" ≡ ok (some ("v", "|")))
    × ((p' k' : String)
        → str_eq "p" p' && str_eq "k" k' ≡ false
        → get_versioned one_value p' k' ≡ get_versioned empty_store p' k')
get_versioned-compare_and_set_example =
    get_versioned-compare_and_set tally "p" "k" "v" "|" none empty_store one_value first_write

one_value-IsVersioned : IsVersioned tally one_value
unfolding compare_and_set set set_memory write mismatch validate_write entry_size lookup insert
one_value-IsVersioned =
    apply-IsVersioned tally (put "p" "k" "v" none true) empty_store empty_store-IsVersioned

-- Other keys are written and deleted in between.
abbrev busy : List Op
busy = put "p" "j" "w" none false ∷ drop "p" "j" ∷ drop_if "q" "k" "|" ∷ []

abbrev read_value : String
read_value = "v"

get_versioned-stable_example : read_value ≡ "v"
unfolding get_versioned set set_memory write mismatch validate_write entry_size lookup insert remove
    delete erase drop_entry compare_and_delete
get_versioned-stable_example =
    get_versioned-stable tally tally-distinct one_value busy "p" "k" "v" "v" "|"
      one_value-IsVersioned refl refl

pub empty_store-IsWithin : IsWithin empty_store
unfolding lookup
empty_store-IsWithin = record {
  counted = omega arith;
  total = omega arith;
  versioned = λ p k. refl;
  keys = λ p. omega arith;
}

apply_all-IsWithin_example :
    IsWithin (apply_all tally (put "p" "k" "v" none true ∷ busy) empty_store)
apply_all-IsWithin_example =
    apply_all-IsWithin tally (put "p" "k" "v" none true ∷ busy) empty_store empty_store-IsWithin

abbrev full_bucket : Store
full_bucket = record empty_store {
  values = ("p", ("kb", "2") ∷ ("ja", "0") ∷ ("ka", "1") ∷ []) ∷ [];
  versions = ("p", ("kb", "b") ∷ ("ja", "j") ∷ ("ka", "a") ∷ []) ∷ [];
}

abbrev first_entry : PageEntry
first_entry = record { key = "ka"; value = "1"; version = "a" }

abbrev next_key : Option String
next_key = some "ka"

first_page : scan_memory full_bucket "p" "k" "" 1 64 ≡ page (first_entry ∷ []) next_key
unfolding scan_memory candidates sorted_keys insert_sorted page_entries page_loop lookup
first_page = refl

scan_memory-listed_example :
    (keys : List String) × (rest : List PageEntry) × (map (page_entry full_bucket "p") keys
      ≡ (first_entry ∷ []) ++ rest)
    × (in_order keys ≡ true)
    × ((key : String)
        → has_key key keys
          ≡ (starts_with key "k" && is_less "" key) && is_some (entry "p" key full_bucket.values))
    × (length (first_entry ∷ []) ≤ 1)
    × (page_size (first_entry ∷ []) ≤ 64)
    × (next_key ≡ none → rest ≡ [])
    × ((key : String) → next_key ≡ some key → last_key "" (first_entry ∷ []) ≡ key)
scan_memory-listed_example =
    scan_memory-listed full_bucket "p" "k" "" 1 64 (first_entry ∷ []) next_key first_page

-- A token of this plugin and prefix is its key behind a mark.
abbrev encode_token : CursorToken → String
encode_token token = str_cons "#" token.last

decode_token : String → Option CursorToken
decode_token str_nil = none
decode_token (str_cons mark last) = some (token_of "p" "k" last)

decode_token-encode_token :
    (last : String)
    → decode_token (encode_token (token_of "p" "k" last)) ≡ some (token_of "p" "k" last)
unfolding decode_token
decode_token-encode_token last = refl

marked : (last : String) → str_eq (encode_token (token_of "p" "k" last)) "" ≡ false
marked last = elim (Bool-cases (str_eq (str_cons "#" last) "")) [
  | inl same ↦
      let empty : str_cons "#" last ≡ "" = (eq_iff (str_cons "#" last) "").0 same in absurd cc
  | inr apart ↦ apart
]

abbrev second_entry : PageEntry
second_entry = record { key = "kb"; value = "2"; version = "b" }

first_scan :
    scan decode_token encode_token full_bucket "p" "k" "" 1 64
    ≡ scanned (first_entry ∷ []) (some "#ka")
unfolding scan scan_memory candidates sorted_keys insert_sorted page_entries page_loop lookup
    encode_cursor decode_cursor
first_scan = refl

second_scan :
    scan decode_token encode_token full_bucket "p" "k" "#ka" 8 64 ≡ scanned (second_entry ∷ []) none
unfolding scan scan_memory candidates sorted_keys insert_sorted page_entries page_loop lookup
    decode_cursor decode_token
second_scan = refl

scan-resumed_example : all_after "ka" (second_entry ∷ []) ≡ true
scan-resumed_example =
    scan-resumed decode_token encode_token full_bucket full_bucket "p" "k" "" "#ka" 1 64 8 64
      (first_entry ∷ []) (second_entry ∷ []) none decode_token-encode_token marked first_scan
      second_scan
