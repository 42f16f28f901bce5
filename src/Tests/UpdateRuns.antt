-- ===== src/Tests/UpdateRuns.antt =====
-- The conditional writes of internal/suggest/store.go against a small store with one key: its
-- history, newest first, whose length is the version.
use Prim.Native.String.{String}
use text.Mathlib.Text.{◌==◌ as str_eq}
use torana_edge.Prelude.{
  ◌≡◌, ◌≢◌, ◌⊎◌, refl, ◌∙◌, sym, ap, List, [], ◌∷◌, ◌++◌, none, some, Option, Bool, true, false, ℕ,
  suc, arith, length, length-append, if◌then◌else◌, ◌==◌,
}
use torana_edge.Prelude.Assoc.{lookup}
use torana_edge.Suggest.{Suggestion, Record, Status, accepted, pending, dismissed}
use torana_edge.Suggest.Records.{
  expire, expire_items, runs_out, accept, claim_hook_announcement, announce_first, resolve,
  resolve_first,
}
use torana_edge.Suggest.Creation.{ok}
use torana_edge.Suggest.Update.{
  State, Fetched, missing, found, Reply, applied, refused, read, update, update_loop, attempt,
  change_read, write_back, empty_record,
}
use torana_edge.Suggest.Atomic.{Applied, Idle, update-atomic}
use torana_edge.Suggest.Reports.{
  announce_change, announce_call, announce_call-Applied, resolve_id_call, resolve_id_call-lost,
}

abbrev History : Type 0
History = List String

abbrev fetch : History → Fetched ℕ
fetch [] = missing
fetch (t ∷ h) = found t (length h)

abbrev write_if : String → Option ℕ → History → History × Reply
write_if t none [] = (t ∷ [], applied)
write_if t none (x ∷ h) = (x ∷ h, refused)
write_if t (some v) [] = ([], refused)
write_if t (some v) (x ∷ h) = if length h == v then (t ∷ x ∷ h, applied) else (x ∷ h, refused)

abbrev Grows : History → History → Type 0
Grows s s' = (p : History) × (s' ≡ p ++ s)

longer :
    (p s : History) (t t' : String) (v : ℕ)
    → fetch s ≡ found t v
    → fetch (p ++ s) ≡ found t' v
    → t ≡ t'
longer p [] t t' v e e' = absurd (ground arith)
longer [] (x ∷ h) t t' v e e' = ground arith
longer (y ∷ p) (x ∷ h) t t' v e e' = absurd (ground (arith, length-append p (x ∷ h)))

history-stable :
    (s s' : History) (t t' : String) (v : ℕ)
    → Grows s s'
    → fetch s ≡ found t v
    → fetch s' ≡ found t' v
    → t ≡ t'
history-stable s s' t t' v (p, g) e e' = longer p s t t' v e (ap fetch (sym g) ∙ e')

history-applied_to :
    (t : String) (v : ℕ) (s : History)
    → (write_if t (some v) s).1 ≡ applied
    → (t' : String) × (fetch s ≡ found t' v)
history-applied_to t v [] a = absurd (ground arith)
history-applied_to t v (x ∷ h) a = (x, ground arith)

history-applied_new :
    (t : String) (s : History) → (write_if t none s).1 ≡ applied → fetch s ≡ missing
history-applied_new t [] a = refl
history-applied_new t (x ∷ h) a = absurd (ground arith)

history-stored :
    (t : String) (e : Option ℕ) (s : History)
    → (write_if t e s).1 ≡ applied
    → (v : ℕ) × (fetch (write_if t e s).0 ≡ found t v)
history-stored t none [] a = (0, refl)
history-stored t none (x ∷ h) a = absurd (ground arith)
history-stored t (some v) [] a = absurd (ground arith)
history-stored t (some v) (x ∷ h) a = (suc (length h), ground arith)

history-untouched :
    (t : String) (e : Option ℕ) (s : History)
    → (write_if t e s).1 ≢ applied
    → (write_if t e s).0 ≡ s
history-untouched t none [] n = absurd (n refl)
history-untouched t none (x ∷ h) n = refl
history-untouched t (some v) [] n = refl
history-untouched t (some v) (x ∷ h) n = ground arith

abbrev one_key : State
one_key = record {
  S = History;
  Version = ℕ;
  get = fetch;
  cas = write_if;
  Later = Grows;
  stable = history-stable;
  applied_to = history-applied_to;
  applied_new = history-applied_new;
  stored = history-stored;
  untouched = history-untouched;
}

abbrev pub advice : Status → Bool → Suggestion
advice status announced = record {
  id = "sg_1";
  code = "k7mn";
  plugin = "router";
  conversation = "c";
  kind = "model";
  dedupe_key = "route";
  title = "Use the small model";
  body = "";
  actions = [];
  cost_usd = none;
  harness_target_model = "";
  created_at = 10;
  created_turn = 1;
  expires_after_user_turns = 3;
  status = status;
  via = "";
  action = none;
  outcome = "";
  hook_announced = announced;
}

abbrev pub holding : Suggestion → Record
holding item = record (empty_record "c") { suggestions = item ∷ [] }

-- The texts of the three records that these runs write.
abbrev pub text_of : List Suggestion → String
text_of [] = "empty"
text_of (item ∷ items) = elim item.status [
  | pending ↦ if item.hook_announced then "announced" else "pending"
  | accepted ↦ "accepted"
  | dismissed ↦ "dismissed"
  | _ ↦ "other"
]

abbrev pub encode : Record → Option String
encode r = some (text_of r.suggestions)

abbrev pub decode : String → Option Record
decode t =
    if str_eq t "pending"
    then some (holding (advice pending false))
    else if str_eq t "announced"
    then some (holding (advice pending true))
    else if str_eq t "dismissed"
    then some (holding (advice dismissed false))
    else none

abbrev alone : ℕ → History → History
alone n s = s

alone-Grows : (n : ℕ) (s : History) → Grows s (alone n s)
alone-Grows n s = ([], refl)

-- Someone dismisses the item before the first write.
abbrev dismissing : ℕ → History → History
dismissing n s = if n == 7 then "dismissed" ∷ s else s

announced_first :
    announce_call one_key encode decode "c" alone alone 20 1 ("pending" ∷ [])
    ≡ ("announced" ∷ "pending" ∷ [], some (advice pending true), none)
unfolding announce_call update update_loop attempt change_read write_back read announce_change
    claim_hook_announcement announce_first expire expire_items runs_out lookup
announced_first = refl

announce_call-Applied_example :
    Applied one_key encode decode "c"
      (announce_change 20 1)
      alone
      alone
      alone-Grows
      ("announced" ∷ "pending" ∷ [])
      (some (advice pending true))
announce_call-Applied_example =
    announce_call-Applied one_key encode decode "c" alone alone alone-Grows 20 1 ("pending" ∷ [])
      ("announced" ∷ "pending" ∷ []) (advice pending true) announced_first

update-atomic_example :
    Applied one_key encode decode "c"
      (announce_change 20 1)
      alone
      alone
      alone-Grows
      ("announced" ∷ "pending" ∷ [])
      (some (advice pending true))
    ⊎ Idle one_key encode decode "c"
        (announce_change 20 1)
        alone
        alone
        alone-Grows
        ("announced" ∷ "pending" ∷ [])
        (some (advice pending true))
unfolding announce_call
update-atomic_example =
    update-atomic one_key encode decode "c" (announce_change 20 1) alone alone alone-Grows
      ("pending" ∷ []) ("announced" ∷ "pending" ∷ []) none (some (advice pending true))
      announced_first

abbrev resolved : Suggestion
resolved = record (advice pending false) { status = accepted; action = some accepted; via = "web" }

resolve_id_call-lost_example :
    resolve_id_call one_key encode decode "c" dismissing alone "sg_1" accept "web" 20 1
      ("pending" ∷ [])
    ≡ ("dismissed" ∷ "pending" ∷ [], ok resolved)
unfolding read resolve resolve_first expire expire_items runs_out lookup
resolve_id_call-lost_example =
    resolve_id_call-lost one_key encode decode "c" dismissing alone "sg_1" "web" 20 1
      ("pending" ∷ []) (holding (advice pending false)) (holding resolved)
      (holding (advice dismissed false)) (holding (advice dismissed false)) (some 0) (some 1)
      "accepted" resolved refl refl refl refl refl refl refl
