-- ===== src/Publisher/Receive.antt =====
-- `get_stream_data` of src/publisher/src/publisher.c, the callback that receives a body.
use phantom_monitoring_clien.Base.{
  ℕ, ◌≡◌, refl, List, [], ◌∷◌, Bool, true, false, Bytes, if◌then◌else◌, ◌==◌, length, arith,
}

-- What `realloc` did: the block stays, moves (the old one is freed), or there is no memory.
pub data Realloc : Type 0 where
  in_place moved failed : Realloc

-- The caller's buffer; `is_dangling` once its block has been freed.
pub record Stream : Type 0 where
  pub contents : Bytes
  pub is_dangling : Bool

-- The callback's parameter is a copy of the caller's pointer, so a new block does not reach it.
unfoldable pub get_stream_data : Realloc → Stream → Bytes → ℕ × Stream
get_stream_data in_place s buffer = (length buffer, record s { contents = buffer })
get_stream_data moved s buffer = (length buffer, record s { is_dangling = true })
get_stream_data failed s buffer = (0, s)

-- libcurl calls the callback for each piece, until one is not taken whole.
unfoldable pub deliver : (Bytes → Realloc) → Stream → List Bytes → Bool × Stream
unfolding get_stream_data
deliver realloc s [] = (true, s)
deliver realloc s (buffer ∷ chunks) =
    let (taken, s') = get_stream_data (realloc buffer) s buffer in
    let rest = deliver realloc s' chunks in if taken == length buffer then rest else (false, s')

-- The last piece, or `old` if there is none.
abbrev pub last_or : Bytes → List Bytes → Bytes
last_or old [] = old
last_or old (x ∷ xs) = last_or x xs

length_eq : (s : Bytes) → (length s == length s) ≡ true
length_eq s = ground arith

-- Where `realloc` keeps the block in place, every piece is taken and the caller's buffer ends with
-- the last piece alone: the pieces before it are overwritten.
pub deliver_last :
    (realloc : Bytes → Realloc) (s : Stream) (chunks : List Bytes)
    → ((b : Bytes) → realloc b ≡ in_place)
    → deliver realloc s chunks ≡ (true, record s { contents = last_or s.contents chunks })
unfolding deliver
deliver_last realloc s [] stay = refl
deliver_last realloc s (b ∷ chunks) stay =
    rw (stay b, deliver, get_stream_data)
      (rw (length_eq b) (deliver_last realloc (record s { contents = b }) chunks stay))
