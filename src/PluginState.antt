-- ===== src/PluginState.antt =====
-- The memory backend of internal/pluginstate/store.go: a key/value store for each plugin, with
-- versions from one counter and limits on values, keys and bytes. `format` stands for
-- `strconv.FormatUint`.
use Prim.Native.String.{String, len}
use text.Mathlib.Text.{◌==◌ as str_eq}
use torana_edge.Prelude.{
  ℕ, ◌+◌, ◌-◌, ◌^◌, List, [], ◌∷◌, Bool, true, false, ◌&&◌, ◌||◌, not, Option, none, some, length,
  ltb, leb, ◌==◌, if◌then◌else◌,
}
use torana_edge.Prelude.Assoc.{lookup, insert, remove}
pub mod Entries
pub mod Versions
pub mod Bytes
pub mod Limits
pub mod Quota
pub mod Scans
pub mod Pages
pub mod Resumed

pub record Store : Type 0 where
  pub values : List (String × List (String × String))
  pub versions : List (String × List (String × String))
  pub counter : ℕ
  pub total : ℕ
  pub path : String
  pub max_value_bytes : ℕ
  pub max_total_bytes : ℕ
  pub max_keys_per_plugin : ℕ
  pub read_only : Bool

pub data StoreError : Type 0 where
  names_required not_configured value_too_long too_many_keys too_many_bytes version_exhausted :
      StoreError

pub data Result {ℓ} (A : Type ℓ) : Type ℓ where
  ok : A → Result A
  err : StoreError → Result A

abbrev pub bucket : String → List (String × List (String × String)) → List (String × String)
bucket plugin m = elim (lookup plugin m) [ none ↦ [] | some b ↦ b ]

-- `m[plugin][key]`
abbrev pub entry : String → String → List (String × List (String × String)) → Option String
entry plugin key m = lookup key (bucket plugin m)

abbrev pub is_some {ℓ} : {A : Type ℓ} → Option A → Bool
is_some none = false
is_some (some _) = true

abbrev pub text_or_empty : Option String → String
text_or_empty none = ""
text_or_empty (some s) = s

abbrev pub unavailable : Store → Bool
unavailable s = s.read_only || not (str_eq s.path "")

-- The value and its version, if the key is there.
unfoldable pub get_versioned : Store → String → String → Result (Option (String × String))
get_versioned s plugin key =
    if str_eq plugin "" || str_eq key ""
    then err names_required
    else if unavailable s
    then err not_configured
    else elim (entry plugin key s.values) [
      | none ↦ ok none
      | some value ↦ ok (some (value, text_or_empty (entry plugin key s.versions)))
    ]

unfoldable pub entry_size : String → String → ℕ
entry_size key value = len key + len value

abbrev pub old_size : String → Option String → ℕ
old_size key none = 0
old_size key (some old) = entry_size key old

-- Whether a conditional write does not find what it expects.
unfoldable pub mismatch : Store → String → String → Option String → Bool
mismatch s plugin key none = is_some (entry plugin key s.values)
mismatch s plugin key (some expected) =
    not (is_some (entry plugin key s.values))
    || not (str_eq (text_or_empty (entry plugin key s.versions)) expected)

unfoldable pub validate_write : Store → String → String → String → Option StoreError
validate_write s plugin key value =
    if unavailable s
    then some not_configured
    else if str_eq plugin "" || str_eq key ""
    then some names_required
    else if ltb s.max_value_bytes (len value)
    then some value_too_long
    else none

abbrev pub max_uint64 : ℕ
max_uint64 = 2 ^ 64 - 1

module _ (format : ℕ → String) where
  -- The writes of `setMemory`, once nothing speaks against them.
  unfoldable pub write : String → String → String → Store → Store
  write plugin key value s =
      let known = is_some (lookup plugin s.values) in
      record s {
        values = insert plugin (insert key value (bucket plugin s.values)) s.values;
        versions =
            insert plugin
              (insert key (format (s.counter + 1)) (if known then bucket plugin s.versions else []))
              s.versions;
        counter = s.counter + 1;
        total = s.total + entry_size key value - old_size key (entry plugin key s.values);
      }

  -- The store after the call, and whether the write was applied and under which version.
  unfoldable pub set_memory :
      String → String → String → Option String → Bool → Store → Store × Result (Bool × String)
  unfolding write mismatch
  set_memory plugin key value expected conditional s =
      let exists = is_some (entry plugin key s.values) in
      let total = s.total + entry_size key value - old_size key (entry plugin key s.values) in
      if conditional && mismatch s plugin key expected
      then (s, ok (false, ""))
      else if not exists && leb s.max_keys_per_plugin (length (bucket plugin s.values))
      then (s, err too_many_keys)
      else if ltb s.max_total_bytes total
      then (s, err too_many_bytes)
      else if s.counter == max_uint64
      then (s, err version_exhausted)
      else (write plugin key value s, ok (true, format (s.counter + 1)))

  unfoldable pub set :
      String → String → String → Option String → Bool → Store → Store × Result (Bool × String)
  unfolding validate_write
  set plugin key value expected conditional s = elim (validate_write s plugin key value) [
    | some e ↦ (s, err e)
    | none ↦ set_memory plugin key value expected conditional s
  ]

  unfoldable pub compare_and_set :
      String → String → String → Option String → Store → Store × Result (Bool × String)
  compare_and_set plugin key value expected s = set plugin key value expected true s

-- `delete(m[plugin], key)`, and the plugin with its last key.
unfoldable pub drop_entry :
    String
    → String
    → List (String × List (String × String))
    → Bool
    → List (String × List (String × String))
drop_entry plugin key m last =
    if last then remove plugin m else insert plugin (remove key (bucket plugin m)) m

abbrev pub is_empty {ℓ} : {A : Type ℓ} → List A → Bool
is_empty [] = true
is_empty (_ ∷ _) = false

unfoldable pub erase : String → String → String → Store → Store
unfolding drop_entry
erase plugin key value s =
    let last = is_empty (remove key (bucket plugin s.values)) in
    record s {
      values = drop_entry plugin key s.values last;
      versions = drop_entry plugin key s.versions last;
      total = s.total - entry_size key value;
    }

unfoldable pub delete : String → String → Store → Store × Result (Unit {0})
delete plugin key s =
    if str_eq plugin "" || str_eq key ""
    then (s, err names_required)
    else if unavailable s
    then (s, err not_configured)
    else elim (entry plugin key s.values) [
      | none ↦ (s, ok tt)
      | some value ↦ (erase plugin key value s, ok tt)
    ]

unfoldable pub compare_and_delete : String → String → String → Store → Store × Result Bool
compare_and_delete plugin key expected s =
    if str_eq expected ""
    then (s, err names_required)
    else if str_eq plugin "" || str_eq key "" || unavailable s
    then (s, err not_configured)
    else if not (str_eq (text_or_empty (entry plugin key s.versions)) expected)
    then (s, ok false)
    else (erase plugin key (text_or_empty (entry plugin key s.values)) s, ok true)
