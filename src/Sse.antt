-- ===== src/Sse.antt =====
-- internal/handler/sse_hub.go: the hub that sends the status to its subscribers. The goroutine of `Run`
-- and the handlers of subscribers interleave: what the hub's mutex covers is one action, and each send to
-- a channel is one. The request's context and the ticker are left out: a tick is a `sampled` action. A
-- panic ends the process. `json.Marshal` and `reflect.DeepEqual` are parameters.
pub mod Open
pub mod Delivery
pub mod Panic
mod Tests
use proton5g.Base.{
  ℕ, Bool, true, false, not, ◌&&◌, ◌||◌, List, [], ◌∷◌, ◌++◌, Option, none, some, ◌==◌,
  if◌then◌else◌, length, get_or, set, any, Text, is_empty,
}

-- a channel with a buffer of one payload
pub record Channel : Type 0 where
  pub buffer : Option Text
  pub closed : Bool

-- what is read out of range: no channel is there
abbrev pub no_channel : Channel
no_channel = record { buffer = none; closed = true }

-- SSEHub, with the channels made so far and what the goroutine of `Run` has left to send
pub record SseHub (Status : Type 0) : Type 0 where
  pub clients : List ℕ
  pub channels : List Channel
  pub last : Text
  pub last_status : Option Status
  pub pending : List ℕ
  pub payload : Text
  pub panicked : Bool

abbrev pub channel_at : List Channel → ℕ → Channel
channel_at channels id = get_or channels id no_channel

unfoldable pub remove : ℕ → List ℕ → List ℕ
remove id [] = []
remove id (c ∷ clients) = elim (c == id) [
  | true ↦ remove id clients
  | false ↦ c ∷ remove id clients
]

module _ {Status : Type 0} where
  -- `NewSSEHub`
  unfoldable pub new_hub : SseHub Status
  new_hub = record {
    clients = [];
    channels = [];
    last = [];
    last_status = none;
    pending = [];
    payload = [];
    panicked = false;
  }

  -- `Subscribe`: the channel gets the next number
  unfoldable pub subscribe : SseHub Status → SseHub Status
  subscribe h = record h {
    clients = h.clients ++ length h.channels ∷ [];
    channels =
        h.channels
        ++ (record { buffer = if is_empty h.last then none else some h.last; closed = false }) ∷ [];
  }

  -- the function that `Subscribe` returns
  unfoldable pub unsubscribe : ℕ → SseHub Status → SseHub Status
  unfolding remove
  unsubscribe id h = elim (any (λ c. id == c) h.clients) [
    | false ↦ h
    | true ↦ record h {
      clients = remove id h.clients;
      channels = set h.channels id (record (channel_at h.channels id) { closed = true });
    }
  ]

  -- a subscriber takes what its channel holds
  unfoldable pub receive : ℕ → SseHub Status → SseHub Status
  receive id h = record h {
    channels = set h.channels id (record (channel_at h.channels id) { buffer = none });
  }

  -- `select { case ch <- payload: default: }`
  unfoldable pub deliver : ℕ → SseHub Status → SseHub Status
  deliver id h = elim ((channel_at h.channels id).closed) [
    | true ↦ record h { panicked = true }
    | false ↦ elim ((channel_at h.channels id).buffer) [
      | some _ ↦ h
      | none ↦ record h {
        channels = set h.channels id (record { buffer = some h.payload; closed = false });
      }
    ]
  ]

  -- the next send of `broadcast`
  unfoldable pub send_next : SseHub Status → SseHub Status
  unfolding deliver
  send_next h = elim (h.pending) [ [] ↦ h | id ∷ ids ↦ deliver id (record h { pending = ids }) ]

module _ {Status : Type 0} (same_status : Status → Status → Bool)
    (marshal : Status → Option Text) where
  -- the status is that of the last payload, but for the time of the poll
  unfoldable pub unchanged : Status → SseHub Status → Bool
  unchanged st h = elim (h.last_status) [ none ↦ false | some previous ↦ same_status st previous ]

  -- `broadcast`, up to its sends
  unfoldable pub sample : Status → SseHub Status → SseHub Status
  sample st h = elim (unchanged st h) [
    | true ↦ h
    | false ↦ elim (marshal st) [
      | none ↦ h
      | some payload ↦ record h {
        last_status = some st;
        last = payload;
        pending = h.clients;
        payload = payload;
      }
    ]
  ]

pub data Action (Status : Type 0) : Type 0 where
  subscribed : Action Status
  unsubscribed : ℕ → Action Status
  received : ℕ → Action Status
  sampled : Status → Action Status
  sent : Action Status

module _ {Status : Type 0} (same_status : Status → Status → Bool)
    (marshal : Status → Option Text) where
  -- one action; `broadcast` samples again when all is sent
  unfoldable pub act : Action Status → SseHub Status → SseHub Status
  act subscribed h = subscribe h
  act (unsubscribed id) h = unsubscribe id h
  act (received id) h = receive id h
  act (sampled st) h = elim (h.pending) [ [] ↦ sample same_status marshal st h | _ ∷ _ ↦ h ]
  act sent h = send_next h

  -- actions in their order; after a panic there are none
  unfoldable pub run : List (Action Status) → SseHub Status → SseHub Status
  run [] h = h
  run (a ∷ actions) h = let rest = run actions (act a h) in if h.panicked then h else rest
