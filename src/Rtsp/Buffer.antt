-- ===== src/Rtsp/Buffer.antt =====
-- rtsp/bwrite.c, RTSP_send.c and RTSP_remove_msg.c: bytes into and out of an `RTSP_buffer`.
use fenice_1_12_with_h.Prelude.{
  ℕ, zero, suc, ◌+◌, ◌-◌, ◌%◌, ◌^◌, Bool, not, ◌&&◌, List, [], ◌∷◌, Option, none, some, ltb, leb,
  ◌==◌, if◌then◌else◌, length, update,
}

-- The fields of an `RTSP_buffer` that these functions use. Indices from the size of an array on lie
-- behind it; `proto` is TCP or not.
pub record RtspBuffer : Type 0 where
  pub in_buffer : ℕ → ℕ
  pub in_size : ℕ
  pub out_buffer : ℕ → ℕ
  pub out_size : ℕ
  pub out_sent : ℕ
  pub is_tcp : Bool

-- RTSP_BUFFERSIZE, and `sizeof(rtsp->out_buffer)`
abbrev pub buffer_size : ℕ
buffer_size = 4096

abbrev pub out_capacity : ℕ
out_capacity = 4096 + 4096

-- `memcpy(&buf[at], data, len)`
abbrev pub store : (ℕ → ℕ) → ℕ → List ℕ → ℕ → ℕ
store buf at [] = buf
store buf at (x ∷ xs) = update (store buf (suc at) xs) at x

-- The field `out_size` stands behind the array. Where a text fills the array up, the final '\0' is written
-- to the first byte of the field, the lowest one, before the length of the text is added.
abbrev pub behind_nul : ℕ → ℕ → ℕ
behind_nul size len = if size + len == out_capacity then size - size % 2 ^ 8 else size

-- bwrite: `none` is ERR_ALLOC.
unfoldable pub bwrite : List ℕ → RtspBuffer → Option RtspBuffer
bwrite text r =
    let len = length text in
    if ltb out_capacity (r.out_size + len)
    then none
    else some (record r {
      out_buffer = update (store r.out_buffer r.out_size text) (r.out_size + len) 0;
      out_size = behind_nul r.out_size len + len;
    })

-- The `n` bytes from `at` on.
abbrev pub bytes_from : (ℕ → ℕ) → ℕ → ℕ → List ℕ
bytes_from buf at zero = []
bytes_from buf at (suc n) = buf at ∷ bytes_from buf (suc at) n

-- What `send` does: an error, or so many of the bytes that it is given.
pub data Sent : Type 0 where
  failed : Sent
  accepted : ℕ → Sent

-- What RTSP_send returns: 0 without data, the error of `send`, ERR_GENERIC, or the bytes sent, here
-- with the bytes themselves.
pub data Reply : Type 0 where
  no_data send_error not_tcp : Reply
  sent : List ℕ → Reply

-- RTSP_send, where `send` answers `answer`.
unfoldable pub rtsp_send : Sent → RtspBuffer → Reply × RtspBuffer
rtsp_send failed r =
    if r.out_size == 0 then (no_data, r) else if r.is_tcp then (send_error, r) else (not_tcp, r)
rtsp_send (accepted n) r =
    if r.out_size == 0
    then (no_data, r)
    else if not r.is_tcp
    then (not_tcp, r)
    else if r.out_sent + n == r.out_size
    then (sent (bytes_from r.out_buffer r.out_sent n), record r { out_sent = 0; out_size = 0 })
    else (sent (bytes_from r.out_buffer r.out_sent n), record r { out_sent = r.out_sent + n })

-- RTSP_remove_msg, for a `len` of at most `in_size`.
unfoldable pub rtsp_remove_msg : ℕ → RtspBuffer → RtspBuffer
rtsp_remove_msg len r =
    let size = r.in_size - len in
    let moved : ℕ → ℕ =
      λ i. if ltb i (buffer_size - len) then r.in_buffer (i + len) else r.in_buffer i in
    let cleared : ℕ → ℕ = λ i. if leb len i && ltb i buffer_size then 0 else moved i in
    if not (size == 0) && not (len == 0)
    then record r { in_size = size; in_buffer = cleared }
    else record r { in_size = size }
