-- ===== src/Provider/Frames.antt =====
-- parseEventStreamResponse and isEventStreamResponse of internal/provider/bedrock.go: the walk over
-- the frames of an AWS event stream. The body that is left stands for the offset. Decoding a
-- payload is the caller's function.
use majordomo_gateway.Base.{
  ℕ, zero, suc, ◌+◌, ◌-◌, ◌*◌, ◌<◌, ◌≡◌, ◌≢◌, ◌||◌, List, [], ◌∷◌, arith, if◌then◌else◌, ltb, eqb,
  Str, length, take, drop,
}

-- binary.BigEndian.Uint32 of the first four bytes
unfoldable pub uint32 : Str → ℕ
uint32 (a ∷ b ∷ c ∷ d ∷ s) = a * 0x100_0000 + b * 0x1_0000 + c * 0x100 + d
uint32 _ = 0

pub data FrameError : Type 0 where
  bad_length bad_headers bad_payload : FrameError

-- What the loop returns; `out_of_fuel` is not an outcome of the code.
pub data Walk {ℓ} (S : Type ℓ) : Type ℓ where
  done : S → Walk S
  failed : FrameError → Walk S
  out_of_fuel : Walk S

-- `body[offset+12+headersLen : offset+totalLen-4]`
unfoldable pub payload_of : ℕ → ℕ → Str → Str
payload_of total headers s = take (total - 4 - (12 + headers)) (drop (12 + headers) s)

module _ {ℓ} {S : Type ℓ} (keep : S → Str → S) where
  unfoldable pub walk : ℕ → Str → S → Walk S
  walk zero s acc = out_of_fuel
  walk (suc fuel) s acc =
      let total = uint32 s in
      let headers = uint32 (drop 4 s) in
      let rest = walk fuel (drop total s) (keep acc (payload_of total headers s)) in
      if eqb (length s) 0
      then done acc
      else if ltb (length s) 12
      then done acc
      else if ltb total 16 || ltb (length s) total
      then failed bad_length
      else if ltb (total - 16) headers
      then failed bad_headers
      else if ltb (total - 4) (12 + headers)
      then failed bad_payload
      else rest

  length-drop : {B : Type 0} (n : ℕ) (s : List B) → length (drop n s) ≡ length s - n
  length-drop zero s = omega arith
  length-drop (suc n) [] = omega arith
  length-drop (suc n) (x ∷ s) = omega (arith, length-drop n s)

  -- Each frame takes at least sixteen bytes, so the walk ends within as many rounds as bytes; and
  -- the check of the payload's bounds never fails behind the two before it.
  pub walk_total :
      (fuel : ℕ) (s : Str) (acc : S)
      → length s < fuel
      → (walk fuel s acc ≢ out_of_fuel) × (walk fuel s acc ≢ failed bad_payload)
  unfolding walk
  walk_total zero s acc h = elim h [ ]
  walk_total (suc fuel) s acc h =
      let total = uint32 s in
      let headers = uint32 (drop 4 s) in
      ground (
        arith,
        length-drop total s,
        walk_total fuel (drop total s) (keep acc (payload_of total headers s)),
      )
