-- ===== src/Stream/Suppression.antt =====
-- Signed blocks of text are not left out by a plugin that lacks the stream grant.
use Prim.Native.String.{String}
use torana_edge.Prelude.{
  ℕ, zero, suc, ◌+◌, ◌≤◌, ◌≡◌, refl, List, [], ◌∷◌, ◌++◌, Bool, true, false, ◌&&◌, not, none, some,
  arith, Option-cases, inl, inr, ltb, length, get_elem?, length-append,
}
use torana_edge.Stream.{StreamEvent, signature_delta}
use torana_edge.Stream.Consume.{
  Flagged, unconsumed, count, free, every, consume_first, exact_pass, free-unconsumed,
  free-exact_pass, free-exact_pass-le, every-consume_first, consume_first-fits,
}
use torana_edge.Stream.ToolScopes.{stream_write_grant}
use torana_edge.Stream.Content.{
  SigBindingKind, current, SigBinding, StreamSignatureView, same_binding_kind,
}
use torana_edge.Stream.Scan.{
  Scanning, scan_event, scan_from, scan_stream_signatures, new_scan, in_span, over_nothing,
  after_closed,
}
use torana_edge.Stream.Bindings.{
  of_kind, is_signed, same_occurrence, unmatched, same_span, Survivors, survivors, empty_tokens,
  settle, settle_all, go_on, stop, verify_kind, unpaired_current,
}
use torana_edge.Stream.BindingMinting.{
  same_occurrence-eq, same_occurrence-signed, count-of_kind, free-unmatched,
}

-- Whether the span that an occurrence covers is among so many spans.
abbrev pub is_placed : ℕ → SigBinding → Bool
is_placed n b = elim b.span [ none ↦ true | some o ↦ ltb o n ]

abbrev pub all_placed : ℕ → List SigBinding → Bool
all_placed n [] = true
all_placed n (b ∷ bs) = is_placed n b && all_placed n bs

all_placed-append :
    (n : ℕ) (bs : List SigBinding) (b : SigBinding)
    → all_placed n (bs ++ (b ∷ [])) ≡ (all_placed n bs && is_placed n b)
all_placed-append n [] b = ground arith
all_placed-append n (c ∷ bs) b = ground (arith, all_placed-append n bs b)

all_placed-suc :
    (n : ℕ) (bs : List SigBinding) → all_placed n bs ≡ true → all_placed (n + 1) bs ≡ true
all_placed-suc n [] h = refl
all_placed-suc n (b ∷ bs) h = ground (arith, all_placed-suc n bs)

all_placed-scan_event :
    (ev : StreamEvent) (s : Scanning)
    → all_placed (length s.spans) s.bindings ≡ true
    → all_placed (length (scan_event ev s).spans) (scan_event ev s).bindings ≡ true
unfolding scan_event
all_placed-scan_event (signature_delta token) s h = ground (
  arith,
  all_placed-suc (length s.spans) s.bindings,
  length-append s.spans (s.span ∷ []),
  all_placed-append (length s.spans + 1) s.bindings (in_span token s),
  all_placed-append (length s.spans) s.bindings (over_nothing token),
  all_placed-append (length s.spans) s.bindings (after_closed token s),
)
all_placed-scan_event ev s h =
    ground (arith, all_placed-suc (length s.spans) s.bindings, length-append s.spans (s.span ∷ []))

-- The scan places every occurrence that covers a span.
pub all_placed-scan_from :
    (evs : List StreamEvent) (s : Scanning)
    → all_placed (length s.spans) s.bindings ≡ true
    → all_placed (length (scan_from evs s).spans) (scan_from evs s).bindings ≡ true
unfolding scan_from
all_placed-scan_from [] s h = h
all_placed-scan_from (ev ∷ evs) s h =
    all_placed-scan_from evs (scan_event ev s) (all_placed-scan_event ev s h)

pub all_placed-scan_stream_signatures :
    (evs : List StreamEvent)
    → all_placed (length (scan_stream_signatures evs).spans) (scan_stream_signatures evs).bindings
      ≡ true
unfolding scan_stream_signatures
all_placed-scan_stream_signatures evs =
    let s = scan_from evs new_scan in
    ground (
      arith,
      all_placed-scan_from evs new_scan refl,
      all_placed-suc (length s.spans) s.bindings,
      length-append s.spans (s.span ∷ []),
    )

get_elem?-found :
    {A : Type 0} (xs : List A) (o : ℕ) (x : A) → get_elem? xs o ≡ some x → ltb o (length xs) ≡ true
get_elem?-found [] o x h = cc
get_elem?-found (y ∷ xs) zero x h = ground arith
get_elem?-found (y ∷ xs) (suc o) x h = ground (arith, get_elem?-found xs o x h)

module _ (rv : StreamSignatureView) (can_write : String → Bool)
    (no_grant : can_write stream_write_grant ≡ false) where
  unpaired-is_placed :
      (a : SigBinding)
      → unpaired_current a rv can_write ≡ none
      → is_placed (length rv.spans) a ≡ true
  unfolding unpaired_current
  unpaired-is_placed a h =
      elim a.span as (λ p. a.span ≡ p → is_placed (length rv.spans) a ≡ true) [
        | none ↦ λ e. ground (arith, e)
        | some o ↦ λ e. elim (Option-cases (get_elem? rv.spans o)) [
          | inl missing ↦ absurd (ground (arith, e, missing, no_grant))
          | inr (c, found) ↦ ground (arith, e, get_elem?-found rv.spans o c found)
        ]
      ]
        refl

  settle-is_placed :
      (v : Survivors) (a : SigBinding) (markers left : List (Flagged SigBinding))
      → every (is_placed (length rv.spans)) markers ≡ true
      → settle current rv v can_write a markers ≡ go_on left
      → (is_placed (length rv.spans) a ≡ true) × (every (is_placed (length rv.spans)) left ≡ true)
  unfolding settle
  settle-is_placed v a markers left e h =
      let placed = is_placed (length rv.spans) in
      elim (Option-cases (consume_first (λ m. same_span m.span a.span) markers)) [
        | inr ((m, taken), found) ↦
            let (here, rest) =
              every-consume_first (λ m. same_span m.span a.span) placed markers found e in
            (
              ground (arith, consume_first-fits (λ m. same_span m.span a.span) markers found, here),
              ground (arith, found, rest),
            )
        | inl missing ↦
            (ground (arith, missing, unpaired-is_placed a, no_grant), ground (arith, missing, e))
      ]

  free-settle_all :
      (v : Survivors) (m markers : List (Flagged SigBinding))
      → every (is_placed (length rv.spans)) markers ≡ true
      → settle_all current rv v can_write m markers ≡ none
      → free (λ a. is_signed a && not (is_placed (length rv.spans) a)) m ≡ 0
  unfolding settle_all
  free-settle_all v [] markers e h = refl
  free-settle_all v ((true, a) ∷ m) markers e h = ground (arith, free-settle_all v m markers e h)
  free-settle_all v ((false, a) ∷ m) markers e h =
      elim (settle current rv v can_write a markers)
          as (λ j.
            settle current rv v can_write a markers ≡ j
            → free (λ a. is_signed a && not (is_placed (length rv.spans) a)) ((false, a) ∷ m) ≡ 0) [
              | stop f ↦ λ q. ground (arith, q, free-settle_all v m markers e)
              | go_on left ↦ λ q.
                  let (here, rest) = settle-is_placed v a markers left e q in
                  ground
                    (arith, q, here, free-settle_all v m markers e, free-settle_all v m left rest)
            ]
        refl

-- The accepted occurrences of a token over a content whose span is past the end.
abbrev pub displaced : ℕ → SigBinding → List SigBinding → ℕ
displaced n s =
    count (λ a. same_binding_kind a.kind current && (same_occurrence a s && not (is_placed n a)))

every-empty_tokens :
    (p : SigBinding → Bool) (kind : SigBindingKind) (bs : List SigBinding)
    → every p (unconsumed bs) ≡ true
    → every p (unconsumed (empty_tokens (of_kind kind bs))) ≡ true
unfolding empty_tokens of_kind
every-empty_tokens p kind [] h = refl
every-empty_tokens p kind (b ∷ bs) h = ground (arith, every-empty_tokens p kind bs)

every-all_placed :
    (n : ℕ) (bs : List SigBinding)
    → all_placed n bs ≡ true
    → every (is_placed n) (unconsumed bs) ≡ true
every-all_placed n [] h = refl
every-all_placed n (b ∷ bs) h = ground (arith, every-all_placed n bs)

count-parts :
    (p q : SigBinding → Bool) (bs : List SigBinding)
    → count p bs ≡ count (λ a. p a && q a) bs + count (λ a. p a && not (q a)) bs
count-parts p q [] = refl
count-parts p q (b ∷ bs) = ground (arith, count-parts p q bs)

-- What is free and occurs is free and placed, where no signed one is free and displaced.
free-placed :
    (n : ℕ) (s : SigBinding) (m : List (Flagged SigBinding))
    → free (λ a. is_signed a && not (is_placed n a)) m ≡ 0
    → free (λ a. same_occurrence a s) m ≡ free (λ a. same_occurrence a s && is_placed n a) m
free-placed n s [] h = refl
free-placed n s ((used, a) ∷ m) h = ground (arith, free-placed n s m, same_occurrence-signed a s)

module _ (av rv : StreamSignatureView) (can_write : String → Bool)
    (no_grant : can_write stream_write_grant ≡ false)
    (placed : all_placed (length rv.spans) rv.bindings ≡ true) where
  pub displaced-verify_kind :
      (s : SigBinding)
      → verify_kind current av rv can_write ≡ none
      → displaced (length rv.spans) s av.bindings
        ≤ count (λ a. same_occurrence a s) (of_kind current rv.bindings)
  unfolding verify_kind
  displaced-verify_kind s h =
      let n = length rv.spans in
      let p = λ (a : SigBinding). same_occurrence a s in
      let acc = of_kind current av.bindings in
      let ret = of_kind current rv.bindings in
      let (accepted, flags) = exact_pass same_occurrence ret (unconsumed acc) in
      let markers = unconsumed (empty_tokens ret) in
      elim (Option-cases (unmatched current flags accepted)) [
        | inr (f, found) ↦ absurd (ground (arith, found))
        | inl fine ↦
            let settled =
              free-settle_all rv can_write no_grant (survivors av rv acc flags) accepted markers
                (every-empty_tokens (is_placed n) current rv.bindings
                  (every-all_placed n rv.bindings placed))
                (ground (arith, fine)) in
            omega (
              arith,
              free-unmatched current s flags accepted fine,
              free-unconsumed p acc,
              free-unconsumed (λ a. p a && is_placed n a) acc,
              free-exact_pass same_occurrence p (same_occurrence-eq s) ret (unconsumed acc),
              free-exact_pass-le same_occurrence (λ a. p a && is_placed n a) ret (unconsumed acc),
              free-placed n s accepted settled,
              count-parts p (is_placed n) acc,
              count-of_kind current (λ a. p a && not (is_placed n a)) av.bindings,
            )
      ]
