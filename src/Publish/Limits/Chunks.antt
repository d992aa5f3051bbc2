-- ===== src/Publish/Limits/Chunks.antt =====
-- The chunks of an upload.
use clipper_ai.Base.{ℕ, zero, ◌+◌, ◌*◌, ◌/◌, ◌≤◌, ◌<◌, ◌≡◌, false, max, arith, leb}
use native.Mathlib.Nat.{le-div_iff_mul-le, div-le_of_le-mul, div-mul-le_self, lt-div-mul-add}
use clipper_ai.Publish.Limits.{
  tiktok_chunking, grow_chunk, grows, google_chunk_size, google_chunk_multiple,
}

-- A chunk is within the platform's bounds, and the loop would not make it larger.
record IsGrown (size chunk : ℕ) : Type 0 where
  least : 5242880 ≤ chunk
  most : chunk ≤ 67108864
  done : grows size chunk ≡ false

grow_chunk-IsGrown : (size : ℕ) → IsGrown size (grow_chunk 4 size 5242880)
unfolding grow_chunk
grow_chunk-IsGrown size = ground arith

-- What a number of chunks has to be.
abbrev pub Fits : ℕ → ℕ × ℕ → Type 0
Fits size (chunk, count) =
    (5242880 ≤ chunk)
    × (chunk ≤ 67108864)
    × (1 ≤ count)
    × (count ≤ 1000)
    × (count * chunk ≤ size)
    × (size < count * chunk + chunk)

grown-Fits :
    (size chunk : ℕ)
    → 5242880 < size
    → size ≤ 67108864000
    → IsGrown size chunk
    → chunk ≤ size
    → Fits size (chunk, max 1 (size / chunk))
grown-Fits size chunk h l g c =
    let pos : zero < chunk = omega (arith, g.least) in
    let some_chunk : 1 ≤ size / chunk = (le-div_iff_mul-le pos).1 (omega (arith, c)) in
    let enough : size ≤ chunk * 1000 = ground (arith, g.done, g.most) in
    let few : size / chunk ≤ 1000 = div-le_of_le-mul chunk enough in
    let same : max 1 (size / chunk) ≡ size / chunk = omega (arith, some_chunk) in
    rw same (g.least, g.most, some_chunk, few, div-mul-le_self size chunk, lt-div-mul-add pos)

chunk-le_size : (size : ℕ) → 5242880 < size → grow_chunk 4 size 5242880 ≤ size
unfolding grow_chunk
chunk-le_size size h = ground arith

-- For every file above the smallest chunk and up to a thousand of the largest, the chunks are
-- within the platform's bounds, at most a thousand, they fit in the file, and what is left over
-- is less than one chunk.
pub Fits-tiktok_chunking :
    (size : ℕ) → 5242880 < size → size ≤ 67108864000 → Fits size (tiktok_chunking size)
unfolding tiktok_chunking
Fits-tiktok_chunking size h l =
    let small : leb size 5242880 ≡ false = ground (arith, h) in
    rw small (
      grown-Fits size (grow_chunk 4 size 5242880) h l (grow_chunk-IsGrown size)
        (chunk-le_size size h))

-- A chunk for Google is a positive number of 256 KiB, and no further than half of one from what was
-- preferred, unless less than that was preferred.
pub google_chunk_near :
    (preferred : ℕ)
    → let chunk = google_chunk_size preferred in
      (chunk ≡ chunk / google_chunk_multiple * google_chunk_multiple)
      × (google_chunk_multiple ≤ chunk)
      × (google_chunk_multiple ≤ preferred → 2 * preferred ≤ 2 * chunk + google_chunk_multiple)
      × (google_chunk_multiple ≤ preferred → 2 * chunk ≤ 2 * preferred + google_chunk_multiple)
unfolding google_chunk_size
google_chunk_near preferred = ground arith
