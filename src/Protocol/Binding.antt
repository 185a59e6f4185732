-- ===== src/Protocol/Binding.antt =====
-- A frame that src/scnsim/execution/protocol.py accepts is of one kind and for one request.
use scnsim.Base.{ℕ, String, ◌≡◌, refl, sym, Bool, true, Option, none, some, arith}
use scnsim.Base.Eq.{string_eq}
use scnsim.Base.Dict.{lookup}
use scnsim.Base.Int.{ℤ}
use scnsim.Protocol.Json.{Json, text, Frame, Decoded, is_text, member}
use scnsim.Protocol.Frames.{
  decode_canonical_line, validate_bootstrap, validate_progress, judge_progress, progress_binds,
  bootstrap_holds, progress,
}
use scnsim.Protocol.Ready.{
  validate_checkpoint_ready, validate_point_ready, checkpoint_holds, point_holds,
}

-- What the parent sealed for a child.
pub record Launch : Type 0 where
  pub request_sha256 : String
  pub attempt_sha256 : String
  pub attempt_ordinal : ℕ
  pub expected_version : String
  pub hb_operation : Bool

pub data Kind : Type 0 where
  bootstrap progressing checkpoint point : Kind

abbrev pub schema_of : Kind → String
schema_of bootstrap = "scnsim.bootstrap_ready"
schema_of progressing = "scnsim.progress"
schema_of checkpoint = "scnsim.optimization_checkpoint_ready"
schema_of point = "scnsim.point_checkpoint_ready"

schema_of_inj : (k k' : Kind) → schema_of k ≡ schema_of k' → k ≡ k'
schema_of_inj bootstrap bootstrap h = refl
schema_of_inj bootstrap progressing h = cc
schema_of_inj bootstrap checkpoint h = cc
schema_of_inj bootstrap point h = cc
schema_of_inj progressing bootstrap h = cc
schema_of_inj progressing progressing h = refl
schema_of_inj progressing checkpoint h = cc
schema_of_inj progressing point h = cc
schema_of_inj checkpoint bootstrap h = cc
schema_of_inj checkpoint progressing h = cc
schema_of_inj checkpoint checkpoint h = refl
schema_of_inj checkpoint point h = cc
schema_of_inj point bootstrap h = cc
schema_of_inj point progressing h = cc
schema_of_inj point checkpoint h = cc
schema_of_inj point point h = refl

is_text_inj :
    (key s t : String) (frame : Frame)
    → member key (is_text s) frame ≡ true
    → member key (is_text t) frame ≡ true
    → s ≡ t
unfolding member is_text
is_text_inj key s t frame h g = split (lookup key frame) refl
  where
    split : (v : Option Json) → lookup key frame ≡ v → s ≡ t
    split none e = absurd (ground (arith, e))
    split (some (text u)) e = ground (arith, e, string_eq.beq_iff u s, string_eq.beq_iff u t)
    split (some _) e = absurd (ground (arith, e))

module _ (integral : ℕ → Option ℤ) (loads : String → Option Decoded) (dumps : Frame → String) where
  -- The parent takes the line as a frame of the kind.
  unfoldable pub Accepts : Kind → Launch → String → Type 0
  Accepts bootstrap l raw = ¬ (
      validate_bootstrap integral loads dumps l.request_sha256 l.attempt_ordinal l.expected_version
        l.hb_operation raw
      ≡ none)
  Accepts progressing l raw =
      (f : Frame) × (validate_progress integral loads dumps l.request_sha256 l.attempt_sha256 raw
        ≡ progress f)
  Accepts checkpoint l raw = ¬ (
      validate_checkpoint_ready integral loads dumps l.request_sha256 l.attempt_sha256 raw ≡ none)
  Accepts point l raw =
      ¬ (validate_point_ready integral loads dumps l.request_sha256 l.attempt_sha256 raw ≡ none)

  -- A frame that passes names the kind and the request.
  abbrev FrameNames : Kind → Launch → Frame → Type 0
  FrameNames k l f =
      (member "schema" (is_text (schema_of k)) f ≡ true)
      × (member "request_sha256" (is_text l.request_sha256) f ≡ true)

  bootstrap_holds-FrameNames :
      (l : Launch) (f : Frame)
      → bootstrap_holds integral l.request_sha256 l.attempt_ordinal l.expected_version
          l.hb_operation f
        ≡ true
      → FrameNames bootstrap l f
  unfolding bootstrap_holds
  bootstrap_holds-FrameNames l f h = (ground arith, ground arith)

  progress_binds-request :
      (l : Launch) (f : Frame)
      → progress_binds integral l.request_sha256 l.attempt_sha256 f ≡ true
      → member "request_sha256" (is_text l.request_sha256) f ≡ true
  unfolding progress_binds
  progress_binds-request l f h = ground arith

  judge_progress-binds :
      (l : Launch) (f g : Frame)
      → judge_progress integral l.request_sha256 l.attempt_sha256 f ≡ progress g
      → progress_binds integral l.request_sha256 l.attempt_sha256 f ≡ true
  unfolding judge_progress
  judge_progress-binds l f g h = ground arith

  checkpoint_holds-FrameNames :
      (l : Launch) (f : Frame)
      → checkpoint_holds integral l.request_sha256 l.attempt_sha256 f ≡ true
      → FrameNames checkpoint l f
  unfolding checkpoint_holds
  checkpoint_holds-FrameNames l f h = (ground arith, ground arith)

  point_holds-FrameNames :
      (l : Launch) (f : Frame)
      → point_holds integral l.request_sha256 l.attempt_sha256 f ≡ true
      → FrameNames point l f
  unfolding point_holds
  point_holds-FrameNames l f h = (ground arith, ground arith)

  validate_progress-decodes :
      (l : Launch) (raw : String) (g : Frame)
      → decode_canonical_line loads dumps raw ≡ none
      → validate_progress integral loads dumps l.request_sha256 l.attempt_sha256 raw ≡ progress g
      → ⊥
  unfolding validate_progress
  validate_progress-decodes l raw g e h = ground (arith, e)

  validate_progress-judged :
      (l : Launch) (raw : String) (f g : Frame)
      → decode_canonical_line loads dumps raw ≡ some f
      → validate_progress integral loads dumps l.request_sha256 l.attempt_sha256 raw ≡ progress g
      → (member "schema" (is_text "scnsim.progress") f ≡ true)
        × (judge_progress integral l.request_sha256 l.attempt_sha256 f ≡ progress g)
  unfolding validate_progress
  validate_progress-judged l raw f g e h = (ground (arith, e), ground (arith, e))

  bootstrap-FrameNames :
      (l : Launch) (raw : String) (d : Option Frame)
      → decode_canonical_line loads dumps raw ≡ d
      → Accepts bootstrap l raw
      → (f : Frame) × (d ≡ some f) × FrameNames bootstrap l f
  unfolding Accepts validate_bootstrap
  bootstrap-FrameNames l raw none e h = absurd (ground (arith, e))
  bootstrap-FrameNames l raw (some f) e h =
      (f, refl, bootstrap_holds-FrameNames l f (ground (arith, e)))

  progressing-FrameNames :
      (l : Launch) (raw : String) (d : Option Frame)
      → decode_canonical_line loads dumps raw ≡ d
      → Accepts progressing l raw
      → (f : Frame) × (d ≡ some f) × FrameNames progressing l f
  unfolding Accepts
  progressing-FrameNames l raw none e (g, h) = absurd (validate_progress-decodes l raw g e h)
  progressing-FrameNames l raw (some f) e (g, h) =
      let (schema, judged) = validate_progress-judged l raw f g e h in
      (f, refl, (schema, progress_binds-request l f (judge_progress-binds l f g judged)))

  checkpoint-FrameNames :
      (l : Launch) (raw : String) (d : Option Frame)
      → decode_canonical_line loads dumps raw ≡ d
      → Accepts checkpoint l raw
      → (f : Frame) × (d ≡ some f) × FrameNames checkpoint l f
  unfolding Accepts validate_checkpoint_ready
  checkpoint-FrameNames l raw none e h = absurd (ground (arith, e))
  checkpoint-FrameNames l raw (some f) e h =
      (f, refl, checkpoint_holds-FrameNames l f (ground (arith, e)))

  point-FrameNames :
      (l : Launch) (raw : String) (d : Option Frame)
      → decode_canonical_line loads dumps raw ≡ d
      → Accepts point l raw
      → (f : Frame) × (d ≡ some f) × FrameNames point l f
  unfolding Accepts validate_point_ready
  point-FrameNames l raw none e h = absurd (ground (arith, e))
  point-FrameNames l raw (some f) e h = (f, refl, point_holds-FrameNames l f (ground (arith, e)))

  Accepts-FrameNames :
      (k : Kind) (l : Launch) (raw : String)
      → Accepts k l raw
      → (f : Frame) × (decode_canonical_line loads dumps raw ≡ some f) × FrameNames k l f
  Accepts-FrameNames bootstrap l raw h = bootstrap-FrameNames l raw _ refl h
  Accepts-FrameNames progressing l raw h = progressing-FrameNames l raw _ refl h
  Accepts-FrameNames checkpoint l raw h = checkpoint-FrameNames l raw _ refl h
  Accepts-FrameNames point l raw h = point-FrameNames l raw _ refl h

  -- A line that the parent accepts as a frame of one kind (bootstrap, progress, checkpoint-ready,
  -- point-ready) for one launch, and as a frame of some kind for another, is of the same kind
  -- both times, and both launches have the same request.
  pub Accepts-unique :
      (k k' : Kind) (l l' : Launch) (raw : String)
      → Accepts k l raw
      → Accepts k' l' raw
      → (k ≡ k') × (l.request_sha256 ≡ l'.request_sha256)
  Accepts-unique k k' l l' raw h h' =
      let (f, e, (schema, request)) = Accepts-FrameNames k l raw h in
      let (f', e', (schema', request')) = Accepts-FrameNames k' l' raw h' in
      let same : f ≡ f' = ground (arith, e, e') in
      let named =
        is_text_inj "schema" (schema_of k) (schema_of k') f schema (rw (sym same) at schema') in
      let asked =
        is_text_inj "request_sha256" l.request_sha256 l'.request_sha256 f request
          (rw (sym same) at request') in
      (schema_of_inj k k' named, asked)
