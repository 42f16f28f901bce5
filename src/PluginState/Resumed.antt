-- ===== src/PluginState/Resumed.antt =====
-- Two scans of internal/pluginstate/store.go, the second with the cursor that the first one gave.
use Prim.Native.String.{String}
use text.Mathlib.Text.{◌==◌ as str_eq, starts_with}
use text.Mathlib.TextEquality.{eq_iff}
use torana_edge.Prelude.{
  ℕ, ◌≡◌, refl, ◌∙◌, sym, ap, List, [], ◌∷◌, ◌++◌, Bool, true, false, ◌&&◌, Option, none, some,
  arith, Bool-cases, Option-cases, inl, inr,
}
use torana_edge.PluginState.{Store, bucket}
use torana_edge.PluginState.Scans.{
  PageEntry, page, first_too_large, page_entries, is_less, insert_sorted, sorted_keys, candidates,
  scan_memory, scanned, CursorToken, decode_cursor, encode_cursor, scan,
}
use torana_edge.PluginState.Pages.{last_key, page_loop-split}

-- Every entry's key comes after the given one.
abbrev pub all_after : String → List PageEntry → Bool
all_after last [] = true
all_after last (e ∷ out) = is_less last e.key && all_after last out

abbrev all_keys_after : String → List String → Bool
all_keys_after last [] = true
all_keys_after last (key ∷ keys) = is_less last key && all_keys_after last keys

after-insert_sorted :
    (last key : String) (keys : List String)
    → is_less last key ≡ true
    → all_keys_after last keys ≡ true
    → all_keys_after last (insert_sorted key keys) ≡ true
unfolding insert_sorted
after-insert_sorted last key [] less h = ground (arith, less)
after-insert_sorted last key (k ∷ keys) less h =
    ground (arith, less, h, after-insert_sorted last key keys)

after-sorted_keys :
    (prefix last : String) (b : List (String × String))
    → all_keys_after last (sorted_keys (λ key. starts_with key prefix && is_less last key) b) ≡ true
unfolding sorted_keys
after-sorted_keys prefix last [] = refl
after-sorted_keys prefix last ((key, value) ∷ rest) =
    let keys = sorted_keys (λ key. starts_with key prefix && is_less last key) rest in
    elim (Bool-cases (is_less last key)) [
      | inl less ↦ ground (
        arith,
        less,
        after-sorted_keys prefix last rest,
        after-insert_sorted last key keys less (after-sorted_keys prefix last rest),
      )
      | inr not_less ↦ ground (arith, not_less, after-sorted_keys prefix last rest)
    ]

after-page_entries :
    (s : Store) (plugin last : String) (keys : List String)
    → all_keys_after last keys ≡ true
    → all_after last (page_entries s plugin keys) ≡ true
unfolding page_entries
after-page_entries s plugin last [] h = refl
after-page_entries s plugin last (key ∷ keys) h =
    ground (arith, h, after-page_entries s plugin last keys)

after-append :
    (last : String) (out rest : List PageEntry)
    → all_after last (out ++ rest) ≡ true
    → all_after last out ≡ true
after-append last [] rest h = refl
after-append last (e ∷ out) rest h = ground (arith, h, after-append last out rest)

after-scan_memory :
    (s : Store) (plugin prefix last : String) (limit max_bytes : ℕ) (out : List PageEntry)
    (next : Option String)
    → scan_memory s plugin prefix last limit max_bytes ≡ page out next
    → all_after last out ≡ true
unfolding scan_memory candidates
after-scan_memory s plugin prefix last limit max_bytes out next h =
    let keys =
      sorted_keys (λ key. starts_with key prefix && is_less last key) (bucket plugin s.values) in
    let (rest, split, _, _, _, _) =
      page_loop-split limit max_bytes 0 0 "" (candidates s plugin prefix last) out next
        (omega arith) (omega arith) h in
    after-append last out rest (
      ap (all_after last) (sym split)
      ∙ after-page_entries s plugin last keys
          (after-sorted_keys prefix last (bucket plugin s.values)))

last_key-scan_memory :
    (s : Store) (plugin prefix last key : String) (limit max_bytes : ℕ) (out : List PageEntry)
    → scan_memory s plugin prefix last limit max_bytes ≡ page out (some key)
    → last_key "" out ≡ key
unfolding scan_memory
last_key-scan_memory s plugin prefix last key limit max_bytes out h =
    let (_, _, _, _, _, onward) =
      page_loop-split limit max_bytes 0 0 "" (candidates s plugin prefix last) out (some key)
        (omega arith) (omega arith) h in
    onward key refl

abbrev pub token_of : String → String → String → CursorToken
token_of plugin prefix last = record { plugin = plugin; prefix = prefix; last = last }

module _ (decode_token : String → Option CursorToken) (encode_token : CursorToken → String) where
  next_cursor : String → String → Option String → Option String
  next_cursor plugin prefix none = none
  next_cursor plugin prefix (some last) =
      some (encode_cursor decode_token encode_token plugin prefix last)

  -- A scan that gives entries read its cursor as a key and made a page after it.
  scanned-page :
      (s : Store) (plugin prefix cursor : String) (limit max_bytes : ℕ) (out : List PageEntry)
      (next : Option String)
      → scan decode_token encode_token s plugin prefix cursor limit max_bytes ≡ scanned out next
      → (last : String) × (onward : Option String) × (decode_cursor decode_token encode_token plugin
            prefix cursor
          ≡ some last)
        × (scan_memory s plugin prefix last limit max_bytes ≡ page out onward)
        × (next ≡ next_cursor plugin prefix onward)
  unfolding scan next_cursor
  scanned-page s plugin prefix cursor limit max_bytes out next h =
      elim (Option-cases (decode_cursor decode_token encode_token plugin prefix cursor)) [
        | inl unread ↦ absurd (ground (arith, unread))
        | inr (last, read) ↦
            elim (scan_memory s plugin prefix last limit max_bytes)
                as (λ p.
                  scan_memory s plugin prefix last limit max_bytes ≡ p
                  → (last : String) × (onward : Option String) × (decode_cursor decode_token
                        encode_token plugin prefix cursor
                      ≡ some last)
                    × (scan_memory s plugin prefix last limit max_bytes ≡ page out onward)
                    × (next ≡ next_cursor plugin prefix onward)) [
                      | first_too_large ↦ λ q. absurd (ground (arith, read, q))
                      | page out' none ↦ λ q.
                          let same : (out' ≡ out) × (none ≡ next) =
                            (ground (arith, read, q), ground (arith, read, q)) in
                          (last, none, read, q ∙ ap (λ o. page o none) same.0, sym same.1)
                      | page out' (some key) ↦ λ q.
                          let same : (out' ≡ out)
                              × (some (encode_cursor decode_token encode_token plugin prefix key)
                                  ≡ next) =
                            (ground (arith, read, q), ground (arith, read, q)) in
                          (last, some key, read, q ∙ ap (λ o. page o (some key)) same.0, sym same.1)
                    ]
              refl
      ]

  decode_cursor-encode_cursor :
      (plugin prefix last : String)
      → ((last : String)
          → decode_token (encode_token (token_of plugin prefix last))
            ≡ some (token_of plugin prefix last))
      → ((last : String) → str_eq (encode_token (token_of plugin prefix last)) "" ≡ false)
      → decode_cursor decode_token encode_token plugin prefix
          (encode_cursor decode_token encode_token plugin prefix last)
        ≡ some last
  unfolding decode_cursor encode_cursor
  decode_cursor-encode_cursor plugin prefix last back filled =
      ground (arith, back last, filled last, eq_iff plugin plugin, eq_iff prefix prefix)

  -- A scan with the cursor that a scan of the same plugin and prefix gave lists only keys that come
  -- after the last key of that page, whatever happened to the store in between, so that no key is
  -- listed twice; a token of that plugin and prefix is
  -- encoded as a text that is not empty and decodes to it.
  pub scan-resumed :
      (s s' : Store) (plugin prefix cursor again : String) (limit max_bytes limit' max_bytes' : ℕ)
      (out out' : List PageEntry) (next : Option String)
      → ((last : String)
          → decode_token (encode_token (token_of plugin prefix last))
            ≡ some (token_of plugin prefix last))
      → ((last : String) → str_eq (encode_token (token_of plugin prefix last)) "" ≡ false)
      → scan decode_token encode_token s plugin prefix cursor limit max_bytes
        ≡ scanned out (some again)
      → scan decode_token encode_token s' plugin prefix again limit' max_bytes' ≡ scanned out' next
      → all_after (last_key "" out) out' ≡ true
  unfolding next_cursor
  scan-resumed s s' plugin prefix cursor again limit max_bytes limit' max_bytes' out out' next back
        filled first second =
      let (last, onward, _, paged, made) =
        scanned-page s plugin prefix cursor limit max_bytes out (some again) first in
      let (last', onward', read, paged', _) =
        scanned-page s' plugin prefix again limit' max_bytes' out' next second in
      elim (Option-cases onward) [
        | inl done ↦ absurd (ground (arith, made, done))
        | inr (key, more) ↦
            let own : again ≡ encode_cursor decode_token encode_token plugin prefix key =
              ground (arith, made, more) in
            let found =
              ap (decode_cursor decode_token encode_token plugin prefix) own
              ∙ decode_cursor-encode_cursor plugin prefix key back filled in
            let same : last' ≡ key = ground (arith, read, found) in
            let ended =
              last_key-scan_memory s plugin prefix last key limit max_bytes out
                (paged ∙ ap (page out) more) in
            ap (λ k. all_after k out') (ended ∙ sym same)
            ∙ after-scan_memory s' plugin prefix last' limit' max_bytes' out' onward' paged'
      ]
