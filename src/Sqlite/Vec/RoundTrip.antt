-- ===== src/Sqlite/Vec/RoundTrip.antt =====
-- storage/sqlite/vec.go: blobs of embeddings, written and read.
use mathlib.Core.Path.{◌≡◌}
use known.Prelude.{ℕ, ◌*◌, ◌/◌, ◌%◌, ◌<◌, refl, List, [], ◌∷◌, arith, All, length}
use known.Prelude.Float.{Float32}
use known.Sqlite.Vec.{put_uint32, uint32, serialize_float32, deserialize_float32}

bytes-uint32 :
    (n : ℕ)
    → n < 4_294_967_296
    → uint32 (n % 256) (n / 256 % 256) (n / 65_536 % 256) (n / 16_777_216 % 256) ≡ n
bytes-uint32 n h = omega arith

-- Reading the blob that was written for float32 values, which have 32 bits, gives the values back.
pub deserialize-serialize :
    (v : List Float32)
    → All (λ f. f < 4_294_967_296) v
    → deserialize_float32 (serialize_float32 v) ≡ v
unfolding deserialize_float32 serialize_float32 put_uint32
deserialize-serialize [] h = refl
deserialize-serialize (f ∷ v) h = rw (bytes-uint32 f h.0, deserialize-serialize v h.1)

-- A blob has four bytes for each value, and each is below 256.
pub serialize_float32_bytes :
    (v : List Float32)
    → (length (serialize_float32 v) ≡ 4 * length v) × All (λ b. b < 256) (serialize_float32 v)
unfolding serialize_float32 put_uint32
serialize_float32_bytes [] = (omega arith, tt)
serialize_float32_bytes (f ∷ v) =
    let (n, bytes) = serialize_float32_bytes v in
    (omega (arith, n), (omega arith, (omega arith, (omega arith, (omega arith, bytes)))))
