-- ===== src/BufferPool/Queue/Stale.antt =====
-- A page that OMSbuff_getslot linked in and OMSbuff_write has not filled: what the reader makes of it.
use fenice_1_12_with_h.Prelude.{ℕ, ◌≡◌, List, [], ◌∷◌, some, true, arith}
use fenice_1_12_with_h.BufferPool.{Buffer, Consumer, choose, pass, gotreader}
use fenice_1_12_with_h.BufferPool.Producer.{done, getslot}
use fenice_1_12_with_h.BufferPool.Queue.{IsQueue}
use fenice_1_12_with_h.BufferPool.Queue.Page.{bigger, getslot_page}

-- Where all slots wait and the last one read is the one last written, OMSbuff_getslot links in a
-- page; until a frame is stored there, OMSbuff_gotreader passes over the packets that wait and takes
-- the unwritten slot: its count of references wraps to 65535 and the reader is set back to sequence
-- number 0.
pub getslot-gotreader :
    {b : Buffer} {c : Consumer} (p : ℕ) (ps : List ℕ) (fuel : ℕ)
    → IsQueue b c [] (p ∷ ps)
    → c.last_read_pos ≡ some b.write_pos
    → (b' : Buffer) × (c' : Consumer) × (b'' : Buffer) × (getslot true fuel b ≡ done (b.nslots, b'))
      × (gotreader b' c ≡ some (c', b''))
      × ((b'.slots b.nslots).refs ≡ 0)
      × ((b''.slots b.nslots).refs ≡ 65535)
      × (c'.last_seq ≡ 0)
unfolding gotreader choose
getslot-gotreader {b} {c} p ps fuel q e =
    let b' = bigger p ps q.ring in
    let (c', b'') = pass b' c b.nslots in
    (
      b',
      c',
      b'',
      getslot_page p ps q.ring fuel,
      ground (arith, q.writer_in, q.front, q.due, q.in_range.0),
      ground (arith, q.writer_in),
      ground (arith, q.writer_in),
      ground (arith, q.writer_in),
    )
