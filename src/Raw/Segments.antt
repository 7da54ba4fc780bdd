-- ===== src/Raw/Segments.antt =====
-- Values in segments: what the loops of sdoUpload and sdoDownload of
-- src/transport/linux_raw_socket_transport.cpp transfer.
use mathlib.Core.List.{append_assoc, append-nil}
use openethercat.Base.{
  ℕ, zero, suc, ◌-◌, ◌≤◌, ◌≡◌, refl, ap, ◌∙◌, Bool, true, false, List, [], ◌∷◌, ◌++◌, some, String,
  if◌then◌else◌, leb, length, drop, min, arith, length-drop,
}
use openethercat.Raw.{RawTransport, System, MailboxErrorClass, no_class}
use openethercat.Raw.Download.{segment_payload_max, send_segment, download_segments}
use openethercat.Raw.Mailbox.{Route}
use openethercat.Raw.Transaction.{Settled, settled, stopped, fail_call}
use openethercat.Raw.Upload.{ask_segment, next_segment, upload_segments, uploaded}
use openethercat.Raw.Acknowledged.{Acknowledged}
use openethercat.Sdo.{SegmentUploadResponse}
use openethercat.Transport.{SdoCall}

settled_same {ℓ κ} :
    {A : Type ℓ} {B : Type κ} (o : Settled A) {f g : A → String → B}
    (h : MailboxErrorClass → String → ℕ → B)
    → ((a : A) (text : String) → f a text ≡ g a text)
    → elim o [ settled a text ↦ f a text | stopped cls text code ↦ h cls text code ]
      ≡ elim o [ settled a text ↦ g a text | stopped cls text code ↦ h cls text code ]
settled_same (settled a text) h e = e a text
settled_same (stopped cls text code) h e = refl

if_false_same {ℓ} :
    {A : Type ℓ} (b : Bool) (x : A) {y z : A}
    → (b ≡ false → y ≡ z)
    → (if b then x else y) ≡ (if b then x else z)
if_false_same true x e = refl
if_false_same false x e = e refl

module _ {N : Type 0} (sys : System N) (over : ℕ → ℕ) (r : Route) where
  -- The segments that a slave serves one after the other, from the first request to its last segment.
  pub data Served
      : ℕ → List (List ℕ) → String → RawTransport N → String → RawTransport N → Type 0 where
    final_segment :
        (toggle : ℕ) (text : String) (t u : RawTransport N) (seg : SegmentUploadResponse)
        (left : String)
        → ask_segment sys over r toggle text t ≡ (u, settled seg left)
        → seg.last_segment ≡ true
        → Served toggle (seg.bytes ∷ []) text t left u
    further_segment :
        (toggle : ℕ) (text : String) (t v u : RawTransport N) (seg : SegmentUploadResponse)
        (mid left : String) (segments : List (List ℕ))
        → ask_segment sys over r toggle text t ≡ (v, settled seg mid)
        → seg.last_segment ≡ false
        → Served (1 - toggle) segments mid v left u
        → Served toggle (seg.bytes ∷ segments) text t left u

  abbrev joined : List (List ℕ) → List ℕ
  joined [] = []
  joined (s ∷ segments) = s ++ joined segments

  -- An upload returns as soon as the slave has served its last segment, on any fuel that is no less
  -- than the number of segments, with all segments in order behind what was read before.
  pub upload_segments-joined :
      {toggle : ℕ} {segments : List (List ℕ)} {text left : String} {t u : RawTransport N}
      → Served toggle segments text t left u
      → (fuel : ℕ) (bytes : List ℕ) → length segments ≤ fuel
      → upload_segments sys over r fuel toggle bytes text t
        ≡ some (record u { last_error_class = no_class }, uploaded (bytes ++ joined segments) left)
  unfolding upload_segments
  upload_segments-joined (final_segment toggle text t u seg left asked ends) zero bytes h =
      absurd (omega arith)
  upload_segments-joined (further_segment toggle text t v u seg mid left segments asked on rest)
        zero bytes h =
      absurd (omega arith)
  upload_segments-joined (final_segment toggle text t u seg left asked ends) (suc fuel) bytes h =
      ap (next_segment sys over (upload_segments sys over r fuel (1 - toggle)) bytes) asked
      ∙ rw (ends, append-nil) refl
  upload_segments-joined (further_segment toggle text t v u seg mid left segments asked on rest)
        (suc fuel) bytes h =
      ap (next_segment sys over (upload_segments sys over r fuel (1 - toggle)) bytes) asked
      ∙ rw on (
          upload_segments-joined rest fuel (bytes ++ seg.bytes) (omega arith)
          ∙ ap (λ (b : List ℕ). some (record u { last_error_class = no_class }, uploaded b left))
              (append_assoc bytes seg.bytes (joined segments)))

  -- More rounds than bytes never change a download.
  download_segments-enough :
      (fuel many toggle : ℕ) (rest : List ℕ) (text : String) (t : RawTransport N)
      → length rest ≤ fuel
      → fuel ≤ many
      → download_segments sys over r many toggle rest text t
        ≡ download_segments sys over r fuel toggle rest text t
  unfolding download_segments
  download_segments-enough zero zero toggle rest text t h k = refl
  download_segments-enough zero (suc many) toggle rest text t h k =
      let none_left : leb (length rest) 0 ≡ true = ground arith in rw none_left refl
  download_segments-enough (suc fuel) zero toggle rest text t h k = absurd (omega arith)
  download_segments-enough (suc fuel) (suc many) toggle rest text t h k =
      let s = send_segment sys over r toggle rest text t in
      if_false_same (leb (length rest) 0) _ (λ some_left.
        settled_same s.1 (λ known why code. fail_call [] known why code s.0)
          (λ ack left.
            download_segments-enough fuel many (1 - toggle)
              (drop (min (length rest) segment_payload_max) rest) left s.0
              (ground (arith, length-drop (min (length rest) segment_payload_max) rest))
              (omega arith)))

module _ {N : Type 0} (sys : System N) (over : ℕ → ℕ) (r : Route) where
  -- A download reports success only once the slave has taken all bytes.
  IsTaken : ℕ → List ℕ → String → RawTransport N → RawTransport N × SdoCall → Type 0
  IsTaken toggle bytes text t s =
      s.1.ok ≡ true
      → (u : RawTransport N) × (left : String) × Acknowledged sys over r toggle bytes text t left u

-- The loop over the segments of a download ends on as many rounds as there are bytes: more rounds never
-- change what it returns, whatever the slave answers.
pub download_segments_ends :
    {N : Type 0} (sys : System N) (over : ℕ → ℕ) (r : Route) (toggle rounds : ℕ) (bytes : List ℕ)
    (text : String) (t : RawTransport N)
    → length bytes ≤ rounds
    → download_segments sys over r rounds toggle bytes text t
      ≡ download_segments sys over r (length bytes) toggle bytes text t
download_segments_ends sys over r toggle rounds bytes text t h =
    download_segments-enough sys over r (length bytes) rounds toggle bytes text t (omega arith) h
