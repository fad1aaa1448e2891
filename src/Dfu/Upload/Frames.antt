-- ===== src/Dfu/Upload/Frames.antt =====
-- What `Upload::frame_info` finds at the start of a sequence of bytes.
use open_deck.Prelude.{
  ℕ, ◌+◌, ◌/◌, ◌%◌, ◌<◌, ◌≤◌, ◌≡◌, refl, ap, Bool, true, false, ◌&&◌, ◌-◌, if◌then◌else◌, get_or,
  length-take, length-drop, List, [], ◌∷◌, ◌++◌, some, length, leb, take, drop, arith,
  length-append,
}
use open_deck.Dfu.Upload.{
  ByteOrder, IsLittleEndian, Command, Frame, chunk, chunk_size, chunk_info, frame_info, to_command,
}

-- The frame of one chunk.
abbrev pub chunk_frame : List ℕ → List ℕ
chunk_frame payload = 0x02 ∷ length payload % 256 ∷ length payload / 256 % 256 ∷ payload

pub take-length : (xs ys : List ℕ) → take (length xs) (xs ++ ys) ≡ xs
take-length [] ys = refl
take-length (x ∷ xs) ys = ap (λ l. x ∷ l) (take-length xs ys)

add-sub : (n : ℕ) → 3 + n - 3 ≡ n
add-sub n = omega arith

module _ (o : ByteOrder) (le : IsLittleEndian o) where
  -- A chunk frame of at most 2048 payload bytes is found whole, whatever follows it (where the reads
  -- are little-endian).
  pub frame_info-chunk_frame :
      (payload rest : List ℕ)
      → length payload ≤ chunk_size
      → frame_info o (chunk_frame payload ++ rest)
        ≡ some (record {
          command = chunk;
          payload = payload;
          size = 3 + length payload;
          is_complete = true;
        })
  unfolding frame_info to_command chunk_info
  frame_info-chunk_frame payload rest fits = ground (
    arith,
    le.le16 (length payload % 256) (length payload / 256 % 256),
    length-append payload rest,
    take-length payload rest,
  )

abbrev pub is_chunk : Command → Bool
is_chunk chunk = true
is_chunk _ = false

-- A frame that `bytes` begins with: it is no longer than the largest frame; it is complete exactly
-- if the bytes hold all of it; and its payload is what follows the three bytes of overhead of a
-- complete chunk, and empty in every other frame.
pub record IsFrame (bytes : List ℕ) (f : Frame) : Type 0 where
  pub positive : 0 < f.size
  pub bounded : f.size ≤ 3 + chunk_size
  pub whole : f.is_complete ≡ leb f.size (length bytes)
  pub body :
      f.payload
      ≡ (if is_chunk f.command && f.is_complete then take (f.size - 3) (drop 3 bytes) else [])
  pub body_size : length f.payload ≡ (if is_chunk f.command && f.is_complete then f.size - 3 else 0)

-- Whatever the bytes are, a frame that is found is as `IsFrame` says.
pub frame_info-IsFrame :
    (o : ByteOrder) (bytes : List ℕ) {f : Frame} → frame_info o bytes ≡ some f → IsFrame bytes f
unfolding frame_info to_command chunk_info
frame_info-IsFrame o [] e = ground arith
frame_info-IsFrame o (c ∷ rest) e =
    let n = o.get_le16 (get_or rest 0 0) (get_or rest 1 0) in
    ground (
      arith,
      length-take n (drop 2 rest),
      length-drop 2 rest,
      ap (λ k. take k (drop 2 rest)) (add-sub n),
    )
