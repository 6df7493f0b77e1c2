-- ===== src/Rtsp/Stream.antt =====
-- The output of a connection as a stream of bytes, from bwrite to RTSP_send.
use mathlib.Core.Path.{subst}
use mathlib.Core.List.{append_assoc}
use fenice_1_12_with_h.Prelude.{
  ℕ, ◌+◌, ◌-◌, ◌%◌, ◌^◌, ◌≤◌, ◌≡◌, refl, sym, ap, ◌∙◌, inl, inr, Bool, true, false, not, List, [],
  ◌++◌, none, some, ltb, ltb→le, ◌==◌, if◌then◌else◌, length, update, arith, Bool-cases,
}
use fenice_1_12_with_h.Rtsp.Bytes.{bytes_from-append, bytes_from-store}
use fenice_1_12_with_h.Rtsp.Buffer.{
  RtspBuffer, out_capacity, store, behind_nul, bwrite, bytes_from, Sent, failed, accepted, Reply,
  no_data, send_error, not_tcp, sent, rtsp_send,
}

-- The bytes that wait in the output buffer.
abbrev pub pending : RtspBuffer → List ℕ
pending r = bytes_from r.out_buffer r.out_sent (r.out_size - r.out_sent)

-- A connection, the bytes that bwrite accepted, and those that `send` took.
pub record Connection : Type 0 where
  pub buffer : RtspBuffer
  pub written : List ℕ
  pub delivered : List ℕ

pub record IsStream (k : Connection) : Type 0 where
  pub sent_le : k.buffer.out_sent ≤ k.buffer.out_size
  pub size_le : k.buffer.out_size ≤ out_capacity
  pub in_order : k.delivered ++ pending k.buffer ≡ k.written

abbrev pub given : Reply → List ℕ
given (sent xs) = xs
given _ = []

-- `send` takes at most the bytes that it is given.
abbrev pub Takes : RtspBuffer → Sent → Type 0
Takes k failed = Unit
Takes k (accepted n) = n ≤ k.out_size - k.out_sent

-- The final '\0' of bwrite does no harm: the text does not fill the array up, or the lowest byte of
-- `out_size` is 0 before.
abbrev pub IsHarmless : List ℕ → RtspBuffer → Type 0
IsHarmless text r = r.out_size + length text ≡ out_capacity → r.out_size % 2 ^ 8 ≡ 0

-- One call of bwrite or RTSP_send.
pub data Step (k u : Connection) : Type 0 where
  put :
      (text : List ℕ) (r : RtspBuffer)
      → IsHarmless text k.buffer
      → bwrite text k.buffer ≡ some r
      → u ≡ record k { buffer = r; written = k.written ++ text }
      → Step k u
  refuse : (text : List ℕ) → bwrite text k.buffer ≡ none → u ≡ k → Step k u
  push :
      (answer : Sent)
      → Takes k.buffer answer
      → (let (reply, r) = rtsp_send answer k.buffer in
          u ≡ record k { buffer = r; delivered = k.delivered ++ given reply })
      → Step k u

pub data Reach (k : Connection) : Connection → Type 0 where
  here : Reach k k
  next : {u w : Connection} → Reach k u → Step u w → Reach k w

-- What bwrite does to the bytes that wait.
record Wrote (text : List ℕ) (k r : RtspBuffer) : Type 0 where
  waits : pending r ≡ pending k ++ text
  same_sent : r.out_sent ≡ k.out_sent
  size_is : r.out_size ≡ k.out_size + length text
  fits : r.out_size ≤ out_capacity

behind_nul_lem :
    (size len : ℕ) → (size + len ≡ out_capacity → size % 2 ^ 8 ≡ 0) → behind_nul size len ≡ size
behind_nul_lem size len h = elim (Bool-cases (size + len == out_capacity)) [
  | inl e ↦ let low : size % 2 ^ 8 ≡ 0 = h (ground (arith, e)) in rw e (omega (arith, low))
  | inr e ↦ rw e refl
]

bwrite-Wrote :
    (text : List ℕ) (k : RtspBuffer) {r : RtspBuffer}
    → k.out_sent ≤ k.out_size
    → IsHarmless text k
    → bwrite text k ≡ some r
    → Wrote text k r
unfolding bwrite
bwrite-Wrote text k {r} le harmless e =
    elim (Bool-cases (ltb out_capacity (k.out_size + length text))) [
      | inl full ↦ absurd (ground (arith, full, e))
      | inr fits ↦
          let buf : ℕ → ℕ =
            update (store k.out_buffer k.out_size text) (k.out_size + length text) 0 in
          let grown = behind_nul k.out_size (length text) + length text in
          let stored : record k { out_buffer = buf; out_size = grown } ≡ r =
            ground (arith, fits, e) in
          let is : record k { out_buffer = buf; out_size = k.out_size + length text } ≡ r =
            ap (λ (n : ℕ). record k { out_buffer = buf; out_size = n + length text })
              (sym (behind_nul_lem k.out_size (length text) harmless))
            ∙ stored in
          subst (Wrote text k) is (record {
            waits = bytes_from-store k.out_buffer k.out_sent k.out_size text le;
            same_sent = refl;
            size_is = refl;
            fits = ltb→le out_capacity (k.out_size + length text) fits;
          })
    ]

-- What RTSP_send does to them.
record Delivered (k : RtspBuffer) (reply : Reply) (r : RtspBuffer) : Type 0 where
  splits : pending k ≡ given reply ++ pending r
  sent_le : r.out_sent ≤ r.out_size
  size_le : r.out_size ≤ k.out_size

unchanged :
    (k : RtspBuffer)
    → k.out_sent ≤ k.out_size
    → (reply : Reply) → given reply ≡ []
    → Delivered k reply k
unchanged k le reply e = record {
  splits = ap (λ xs. xs ++ pending k) (sym e);
  sent_le = le;
  size_le = omega arith;
}

abbrev failing : RtspBuffer → Bool → Bool → Reply × RtspBuffer
failing k empty tcp = if empty then (no_data, k) else if tcp then (send_error, k) else (not_tcp, k)

failing-Delivered :
    (k : RtspBuffer) (empty tcp : Bool)
    → k.out_sent ≤ k.out_size
    → Delivered k (failing k empty tcp).0 (failing k empty tcp).1
failing-Delivered k true tcp le = unchanged k le no_data refl
failing-Delivered k false true le = unchanged k le send_error refl
failing-Delivered k false false le = unchanged k le not_tcp refl

abbrev sending : RtspBuffer → ℕ → Bool → Bool → Bool → Reply × RtspBuffer
sending k n empty tcp whole =
    if empty
    then (no_data, k)
    else if not tcp
    then (not_tcp, k)
    else if whole
    then (sent (bytes_from k.out_buffer k.out_sent n), record k { out_sent = 0; out_size = 0 })
    else (sent (bytes_from k.out_buffer k.out_sent n), record k { out_sent = k.out_sent + n })

pending-splits :
    (k : RtspBuffer) (n : ℕ)
    → n ≤ k.out_size - k.out_sent
    → pending k
      ≡ bytes_from k.out_buffer k.out_sent n
        ++ bytes_from k.out_buffer (k.out_sent + n) (k.out_size - (k.out_sent + n))
pending-splits k n h =
    let count : k.out_size - k.out_sent ≡ n + (k.out_size - (k.out_sent + n)) = omega (arith, h) in
    ap (bytes_from k.out_buffer k.out_sent) count
    ∙ bytes_from-append k.out_buffer k.out_sent n (k.out_size - (k.out_sent + n))

sending-Delivered :
    (k : RtspBuffer) (n : ℕ) (empty tcp whole : Bool)
    → k.out_sent ≤ k.out_size
    → n ≤ k.out_size - k.out_sent
    → (k.out_sent + n == k.out_size) ≡ whole
    → Delivered k (sending k n empty tcp whole).0 (sending k n empty tcp whole).1
sending-Delivered k n true tcp whole le h e = unchanged k le no_data refl
sending-Delivered k n false false whole le h e = unchanged k le not_tcp refl
sending-Delivered k n false true true le h e =
    let none_left : k.out_size - (k.out_sent + n) ≡ 0 = ground (arith, e) in
    record {
      splits =
          pending-splits k n h
          ∙ ap
              (λ m.
                bytes_from k.out_buffer k.out_sent n ++ bytes_from k.out_buffer (k.out_sent + n) m)
              none_left;
      sent_le = omega arith;
      size_le = omega arith;
    }
sending-Delivered k n false true false le h e = record {
  splits = pending-splits k n h;
  sent_le = omega (arith, le, h);
  size_le = omega arith;
}

rtsp_send-Delivered :
    (answer : Sent) (k : RtspBuffer)
    → k.out_sent ≤ k.out_size
    → Takes k answer
    → Delivered k (rtsp_send answer k).0 (rtsp_send answer k).1
unfolding rtsp_send
rtsp_send-Delivered failed k le h = failing-Delivered k (k.out_size == 0) k.is_tcp le
rtsp_send-Delivered (accepted n) k le h =
    sending-Delivered k n (k.out_size == 0) k.is_tcp (k.out_sent + n == k.out_size) le h refl

Step-IsStream : {k u : Connection} → IsStream k → Step k u → IsStream u
Step-IsStream {k} {u} c (put text r harmless e is) =
    let w = bwrite-Wrote text k.buffer c.sent_le harmless e in
    subst IsStream (sym is) (record {
      sent_le = omega (arith, c.sent_le, w.same_sent, w.size_is);
      size_le = w.fits;
      in_order =
          ap (◌++◌ k.delivered) w.waits
          ∙ sym (append_assoc k.delivered (pending k.buffer) text)
          ∙ ap (λ xs. xs ++ text) c.in_order;
    })
Step-IsStream {k} {u} c (refuse text e is) = subst IsStream (sym is) c
Step-IsStream {k} {u} c (push answer takes is) =
    let d = rtsp_send-Delivered answer k.buffer c.sent_le takes in
    let (reply, r) = rtsp_send answer k.buffer in
    subst IsStream (sym is) (record {
      sent_le = d.sent_le;
      size_le = omega (arith, d.size_le, c.size_le);
      in_order =
          append_assoc k.delivered (given reply) (pending r)
          ∙ ap (◌++◌ k.delivered) (sym d.splits)
          ∙ c.in_order;
    })

-- However much `send` takes at each call of RTSP_send, partial sends and errors included, and whatever
-- bwrite is given that does not fill the array up exactly, or does so while `out_size` is a multiple of
-- 256: the bytes delivered, followed by those that wait in the buffer, are the bytes that bwrite
-- accepted, in order, none lost and none sent twice. The count of bytes sent stays within the count of
-- bytes, and that within the buffer.
pub Reach-IsStream : {k u : Connection} → IsStream k → Reach k u → IsStream u
Reach-IsStream c here = c
Reach-IsStream c (next r s) = Step-IsStream (Reach-IsStream c r) s
