-- ===== src/Runtime/States.antt =====
-- `RequestState` of engine/runtime/request.py and the transitions that it allows.
use full_inference_engine.Base.{Bool, true, false}

pub data RequestState : Type 0 where
  waiting prefilling decoding finished cancelled failed rejected : RequestState

-- `next_state in _ALLOWED_TRANSITIONS[state]`
unfoldable pub allowed_transition : RequestState → RequestState → Bool
allowed_transition waiting next = elim next [
  | prefilling ↦ true
  | cancelled ↦ true
  | rejected ↦ true
  | _ ↦ false
]
allowed_transition prefilling next = elim next [
  | decoding ↦ true
  | waiting ↦ true
  | cancelled ↦ true
  | failed ↦ true
  | _ ↦ false
]
allowed_transition decoding next = elim next [
  | finished ↦ true
  | waiting ↦ true
  | cancelled ↦ true
  | failed ↦ true
  | _ ↦ false
]
allowed_transition finished next = false
allowed_transition cancelled next = false
allowed_transition failed next = false
allowed_transition rejected next = false

abbrev pub is_waiting : RequestState → Bool
is_waiting s = elim s [ waiting ↦ true | _ ↦ false ]

abbrev pub is_prefilling : RequestState → Bool
is_prefilling s = elim s [ prefilling ↦ true | _ ↦ false ]

abbrev pub is_decoding : RequestState → Bool
is_decoding s = elim s [ decoding ↦ true | _ ↦ false ]

abbrev pub is_terminal : RequestState → Bool
is_terminal s = elim s [
  | finished ↦ true
  | cancelled ↦ true
  | failed ↦ true
  | rejected ↦ true
  | _ ↦ false
]
