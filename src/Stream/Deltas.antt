-- ===== src/Stream/Deltas.antt =====
-- The scan of internal/plugin/streamverify.go records every signature delta of a stream, in order.
use Prim.Native.String.{String}
use torana_edge.Prelude.{ℕ, ◌≡◌, refl, ◌∙◌, sym, ap, List, [], ◌∷◌, ◌++◌, false, none, arith}
use mathlib.Core.List.{append_assoc, append-nil}
use torana_edge.Stream.{Block, StreamEvent, block_start, block_stop, signature_delta}
use torana_edge.Stream.Discipline.{new_walker, walk_all}
use torana_edge.Stream.Content.{SigBinding}
use torana_edge.Stream.Scan.{
  Scanning, new_scan, materialize_span, close_span, scan_block, scan_stop, scan_signature,
  scan_event, scan_from, scan_stream_signatures, reset_span_state, in_span, over_nothing,
  after_closed,
}
use torana_edge.Stream.Bindings.{has_unbound}
use torana_edge.Stream.Scanned.{has_unbound-scan_stream_signatures}

-- The tokens of the signature deltas of a stream.
abbrev pub signature_tokens : List StreamEvent → List String
signature_tokens [] = []
signature_tokens (signature_delta token ∷ evs) = token ∷ signature_tokens evs
signature_tokens (_ ∷ evs) = signature_tokens evs

abbrev pub tokens : List SigBinding → List String
tokens [] = []
tokens (b ∷ bs) = b.signature ∷ tokens bs

tokens-append :
    (bs : List SigBinding) (b : SigBinding) → tokens (bs ++ b ∷ []) ≡ tokens bs ++ b.signature ∷ []
tokens-append [] b = refl
tokens-append (c ∷ bs) b = ap (◌∷◌ c.signature) (tokens-append bs b)

bindings-close_span : (s : Scanning) → (close_span s).bindings ≡ s.bindings
unfolding close_span materialize_span reset_span_state
bindings-close_span s = ground arith

tokens-scan_signature :
    (token : String) (s : Scanning)
    → tokens (scan_signature token s).bindings ≡ tokens s.bindings ++ token ∷ []
unfolding scan_signature close_span materialize_span reset_span_state
tokens-scan_signature token s = ground (
  arith,
  tokens-append s.bindings (in_span token s),
  tokens-append s.bindings (over_nothing token),
  tokens-append s.bindings (after_closed token s),
)

bindings-scan_block :
    (idx : ℕ) (b : Block) (s : Scanning) → (scan_block idx b s).bindings ≡ s.bindings
unfolding scan_block
bindings-scan_block idx b s = ground arith

bindings-scan_stop : (s : Scanning) → (scan_stop s).bindings ≡ s.bindings
unfolding scan_stop close_span materialize_span reset_span_state
bindings-scan_stop s = ground arith

tokens-scan_event :
    (ev : StreamEvent) (s : Scanning)
    → tokens (scan_event ev s).bindings ≡ tokens s.bindings ++ signature_tokens (ev ∷ [])
unfolding scan_event
tokens-scan_event (block_start idx b) s =
    ap tokens (bindings-scan_block idx b (close_span s) ∙ bindings-close_span s)
    ∙ sym (append-nil (tokens s.bindings))
tokens-scan_event (signature_delta token) s = tokens-scan_signature token s
tokens-scan_event (block_stop idx) s =
    ground (arith, bindings-scan_stop s, append-nil (tokens s.bindings))
tokens-scan_event ev s = ground (arith, append-nil (tokens s.bindings))

signature_tokens-cons :
    (ev : StreamEvent) (evs : List StreamEvent)
    → signature_tokens (ev ∷ []) ++ signature_tokens evs ≡ signature_tokens (ev ∷ evs)
signature_tokens-cons ev evs = ground arith

tokens-scan_from :
    (evs : List StreamEvent) (s : Scanning)
    → tokens (scan_from evs s).bindings ≡ tokens s.bindings ++ signature_tokens evs
unfolding scan_from
tokens-scan_from [] s = sym (append-nil (tokens s.bindings))
tokens-scan_from (ev ∷ evs) s =
    tokens-scan_from evs (scan_event ev s)
    ∙ ap (λ ts. ts ++ signature_tokens evs) (tokens-scan_event ev s)
    ∙ append_assoc (tokens s.bindings) (signature_tokens (ev ∷ [])) (signature_tokens evs)
    ∙ ap (λ ts. tokens s.bindings ++ ts) (signature_tokens-cons ev evs)

pub tokens-scan_stream_signatures :
    (evs : List StreamEvent) → tokens (scan_stream_signatures evs).bindings ≡ signature_tokens evs
unfolding scan_stream_signatures
tokens-scan_stream_signatures evs =
    ap tokens (bindings-close_span (scan_from evs new_scan)) ∙ tokens-scan_from evs new_scan

-- Of a stream that the incremental walker takes, the scan records every signature delta, with its
-- token and in order, and binds each to content.
pub bound-scan_stream_signatures :
    (evs : List StreamEvent)
    → (walk_all evs new_walker).1 ≡ none
    → (tokens (scan_stream_signatures evs).bindings ≡ signature_tokens evs)
      × (has_unbound (scan_stream_signatures evs).bindings ≡ false)
bound-scan_stream_signatures evs h =
    (tokens-scan_stream_signatures evs, has_unbound-scan_stream_signatures evs h)
