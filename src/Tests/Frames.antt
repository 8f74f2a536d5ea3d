-- ===== src/Tests/Frames.antt =====
-- A request that streams one delta and completes.
use llama.Prelude.{
  ℕ, ◌+◌, ◌≡◌, refl, true, false, List, [], ◌∷◌, Option, none, some, String, String_discrete, ok,
}
use llama.Prelude.Dict
use llama.Prelude.Int.{pos}
use llama.Run.Payload.{Payload, str, int, object, no_fields, lookup, text, count}
use llama.Worker.Frames.{
  FrameType, FrameVerifier, frame_type, type_of, payload_ok, check_header, verify_started,
  verify_request_frame, verify, verify_text, verify_all,
}
use llama.Worker.Frames.Protocol.{Stage, Word, Carries, verify_all-Word}

abbrev header : String → ℕ → Payload → Payload
header kind n rest =
    ("protocol_version", str "model-worker-ipc.v1")
    ∷ ("request_id", str "r1")
    ∷ ("attempt_id", str "a1")
    ∷ ("sequence", int (pos n))
    ∷ ("type", str kind)
    ∷ rest

-- The parser of the four texts of the run
abbrev loads : String → Option Payload
loads s = elim (String_discrete s "start") [
  | yes p ↦ some (header "started" 0 [])
  | no p ↦ elim (String_discrete s "phase") [
    | yes p ↦ some (header "phase" 1 (("phase", str "final") ∷ []))
    | no p ↦ elim (String_discrete s "delta") [
      | yes p ↦ some (header "final_delta" 2 (("delta", str "hi") ∷ []))
      | no p ↦ elim (String_discrete s "done") [
        | yes p ↦ some (
            header "completed" 3 (
              ("final_text", str "hi")
              ∷ ("usage", object no_fields)
              ∷ ("timing", object no_fields)
              ∷ []))
        | no p ↦ none
      ]
    ]
  ]
]

abbrev verifier : FrameVerifier
verifier = record {
  request_id = "r1";
  attempt_id = "a1";
  next_sequence = 0;
  started = false;
  final_phase = false;
  terminal = false;
}

abbrev complete : FrameVerifier
complete = record verifier {
  next_sequence = 4;
  started = true;
  final_phase = true;
  terminal = true;
}

abbrev texts : List String
texts = "start" ∷ "phase" ∷ "delta" ∷ "done" ∷ []

verify_all-texts : verify_all loads verifier texts ≡ ok complete
unfolding verify_all verify_text verify verify_request_frame verify_started check_header payload_ok
    type_of frame_type text count lookup String_discrete Dict.get
verify_all-texts = refl

verify_all-Word_example :
    (ks : List FrameType) × Carries loads "r1" "a1" 0 texts ks
    × Word Stage.fresh ks Stage.closed
    × (4 ≡ 0 + 4)
verify_all-Word_example = verify_all-Word loads verifier complete texts (λ h. refl) verify_all-texts
