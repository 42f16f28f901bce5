-- ===== src/Failover.antt =====
-- The round trip with failover of internal/proxy/failover.go. The transport and the credential
-- resolver are parameters: the transport's n-th exchange is answered with a status, with a body or
-- without one, or breaks with an error and no response. A body is named by the number of its
-- exchange.
use Prim.Native.String.{String}
use text.Mathlib.Text.{◌==◌ as str_eq}
use torana_edge.Prelude.{
  ℕ, ◌+◌, List, [], ◌∷◌, ◌++◌, Bool, true, false, ◌&&◌, ◌||◌, not, Option, none, some, length, take,
  drop, ltb, leb, ◌==◌, if◌then◌else◌,
}
use torana_edge.Prelude.Assoc.{lookup}
pub mod Rounds
pub mod Accounting
pub mod Attempts

pub record Provider : Type 0 where
  pub format : String
  pub has_bridge : Bool
  pub url : String
  pub fallback : List String

abbrev pub Config : Type 0
Config = List (String × Provider)

pub record BlockResponse : Type 0 where
  pub status : ℕ

pub record RouteContext : Type 0 where
  pub provider_name : String
  pub block : Option BlockResponse

pub data Outcome : Type 0 where
  answered : Bool → ℕ → Outcome
  broken : Outcome

-- A request on its way to a provider: the bytes that its body gives, and whether reading it then
-- fails.
pub record Sent : Type 0 where
  pub target : String
  pub body : List ℕ
  pub broken_off : Bool

-- What the round trip does to the world. `sent` has the latest exchange first; `once_run` lists the
-- leased bodies whose `once` has run; `provider` is the request state's.
pub record Turn : Type 0 where
  pub released : ℕ
  pub closed : List ℕ
  pub once_run : List ℕ
  pub sent : List Sent
  pub provider : String
  pub request_closed : Bool

-- A response of the program's own, a response whose body holds the lease, with the transport's body
-- inside or nothing, a response without a body, or an error.
pub data Returned : Type 0 where
  synthetic : ℕ → Returned
  leased : ℕ → Bool → ℕ → Returned
  bare : ℕ → Returned
  failed read_failed : Returned

unfoldable pub should_retry : ℕ → Bool
should_retry status = status == 429 || leb 500 status

unfoldable pub fallback_names_for_provider : String → Config → List String
unfolding lookup
fallback_names_for_provider name cfg = elim (lookup name cfg) [ none ↦ [] | some p ↦ p.fallback ]

unfoldable pub extract_fallbacks : Option RouteContext → Config → String × List String
unfolding fallback_names_for_provider
extract_fallbacks none cfg = ("", [])
extract_fallbacks (some rc) cfg =
    if str_eq rc.provider_name ""
    then ("", [])
    else (rc.provider_name, fallback_names_for_provider rc.provider_name cfg)

unfoldable pub has_run : ℕ → List ℕ → Bool
has_run body [] = false
has_run body (b ∷ bs) = b == body || has_run body bs

-- `Close` of a leased body: the first call releases the lease and closes the inner body. Where
-- there is none inside, which net/http rules out, the Go call panics once it has released.
unfoldable pub close_leased : ℕ → Bool → Turn → Turn
unfolding has_run
close_leased body has_body t = if has_run body t.once_run then t else record t {
  released = t.released + 1;
  closed = if has_body then body ∷ t.closed else t.closed;
  once_run = body ∷ t.once_run;
}

-- What a caller closes of what it got.
unfoldable pub close_returned : Returned → Turn → Turn
unfolding close_leased
close_returned (leased body has_body status) t = close_leased body has_body t
close_returned other t = t

abbrev pub release : Turn → Turn
release t = record t { released = t.released + 1 }

-- A response: its body's name, whether it has one, and its status.
abbrev pub Response : Type 0
Response = ℕ × Bool × ℕ

abbrev pub close_last : Option Response → Turn → Turn
close_last none t = t
close_last (some (body, true, status)) t = record t { closed = body ∷ t.closed }
close_last (some (body, false, status)) t = t

-- The end of the round trip with the last response, if there is one, and the lease, which is
-- released here if a response that would be retried has no body. One that would not is wrapped in
-- any case.
unfoldable pub hand_over : Option Response → Turn → Turn × Returned
unfolding should_retry
hand_over none t = (release t, failed)
hand_over (some (body, has_body, status)) t =
    if not has_body && should_retry status
    then (release t, bare status)
    else (t, leased body has_body status)

-- One call of the transport.
unfoldable pub exchange : (ℕ → Outcome) → Sent → Turn → Turn × Option Response
exchange answer s t =
    let n = length t.sent in
    let t' = record t { sent = s ∷ t.sent } in
    elim (answer n) [
      | answered has_body status ↦ (t', some (n, has_body, status))
      | broken ↦ (t', none)
    ]

-- The surroundings of one request: its exchange through the bridge, if it has one, what each fallback
-- can be given and the body that the bridge makes for it, and the configuration at each look at it.
pub record Surroundings : Type 0 where
  pub bridged : Bool
  pub cfg : ℕ → Config
  pub url_parses : String → Bool
  pub bridge_represents : String → Bool
  pub bridge_body : String → List ℕ
  pub credential_available : String → Bool

-- A provider that is not configured has the empty format.
abbrev pub format_of : Option Provider → String
format_of none = ""
format_of (some p) = p.format

-- The checks before a fallback is tried.
unfoldable pub usable : Surroundings → Config → String → String → Bool
unfolding lookup
usable e cfg primary name = elim (lookup name cfg) [
  | none ↦ false
  | some fb ↦
      let same_format = str_eq (format_of (lookup primary cfg)) fb.format in
      not (not e.bridged && (not same_format || fb.has_bridge))
      && e.url_parses fb.url
      && (not e.bridged || e.bridge_represents name)
      && e.credential_available name
]

abbrev pub accepted_status : Option Response → Bool
accepted_status none = false
accepted_status (some (body, has_body, status)) = not (should_retry status)

-- The loop over the fallbacks, `look` of which have been passed; `last` is the response so far.
unfoldable pub try_fallbacks :
    Surroundings
    → (ℕ → Outcome)
    → String
    → List ℕ
    → ℕ
    → List String
    → Option Response
    → Turn
    → Turn × Returned
unfolding usable exchange hand_over should_retry
try_fallbacks e answer primary body look [] last t = hand_over last t
try_fallbacks e answer primary body look (name ∷ names) last t =
    let next = λ (l : Option Response) (t' : Turn).
      try_fallbacks e answer primary body (look + 1) names l t' in
    if not (usable e (e.cfg (look + 1)) primary name)
    then next last t
    else let s : Sent = record {
      target = name;
      body = if e.bridged then e.bridge_body name else body;
      broken_off = false;
    } in
      let (sent, response) = exchange answer s (record t { provider = name }) in
      let t' = close_last last sent in
      if accepted_status response then hand_over response t' else next response t'

-- The request's body: absent, or so many bytes after which reading ends, or fails.
pub data RequestBody : Type 0 where
  absent : RequestBody
  content : List ℕ → Bool → RequestBody

-- The first attempt, of the request as it stands, with the fallbacks that are left and the bytes that
-- they would be sent.
unfoldable pub attempt_first :
    Surroundings
    → (ℕ → Outcome)
    → String
    → List ℕ
    → Bool
    → List String
    → List ℕ
    → Turn
    → Turn × Returned
unfolding exchange should_retry hand_over try_fallbacks
attempt_first e answer primary first breaks fallbacks retry_body t =
    let (t', response) =
      exchange answer (record { target = primary; body = first; broken_off = breaks }) t in
    if accepted_status response then hand_over response t' else elim fallbacks [
      | [] ↦ hand_over response t'
      | name ∷ names ↦ try_fallbacks e answer primary retry_body 0 (name ∷ names) response t'
    ]

-- The bytes are buffered for the fallbacks, if there are any, up to a limit beyond which the prefix
-- and the unread rest are sent once. A failure to read beyond the limit is the transport's to meet.
unfoldable pub attempt_buffered :
    Surroundings → (ℕ → Outcome) → ℕ → String → List String → RequestBody → Turn → Turn × Returned
unfolding attempt_first
attempt_buffered e answer max_body_size primary fallbacks absent t =
    attempt_first e answer primary [] false fallbacks [] t
attempt_buffered e answer max_body_size primary [] (content body breaks) t =
    attempt_first e answer primary body breaks [] [] t
attempt_buffered e answer max_body_size primary (name ∷ names) (content body breaks) t =
    let read = take (max_body_size + 1) body in
    if ltb max_body_size (length read)
    then attempt_first e answer primary (read ++ drop (max_body_size + 1) body) breaks [] [] t
    else if breaks
    then (release (record t { request_closed = true }), read_failed)
    else attempt_first e answer primary read false (name ∷ names) read
        (record t { request_closed = true })

-- `provider` is what the request state has before.
abbrev pub new_turn : String → Turn
new_turn provider = record {
  released = 0;
  closed = [];
  once_run = [];
  sent = [];
  provider = provider;
  request_closed = false;
}

abbrev pub block_of : Option RouteContext → Option BlockResponse
block_of none = none
block_of (some rc) = rc.block

-- `admitted` is what the limiter answers.
unfoldable pub round_trip :
    Surroundings
    → (ℕ → Outcome)
    → ℕ
    → Option RouteContext
    → Bool
    → RequestBody
    → Turn
    → Turn × Returned
unfolding extract_fallbacks attempt_buffered
round_trip e answer max_body_size rc admitted body t =
    let (primary, fallbacks) = extract_fallbacks rc (e.cfg 0) in
    elim (block_of rc) [
      | some b ↦ (t, synthetic b.status)
      | none ↦
          if not admitted
          then (t, synthetic 429)
          else attempt_buffered e answer max_body_size primary fallbacks body t
    ]
