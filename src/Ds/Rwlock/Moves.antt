-- ===== src/Ds/Rwlock/Moves.antt =====
-- Every move of a thread keeps what holds of the lock, as long as the counts cannot wrap.
use racoon.Base.{
  ℕ, ◌+◌, ◌^◌, ◌≤◌, ◌<◌, ◌≡◌, ◌≢◌, inl, inr, Bool, arith, subst, subst₂, if◌then◌else◌, update,
  Bool-cases, ℕ_discrete,
}
use racoon.Ds.Rwlock.{Rwlock, reading, writing, Pc, Move, System, moved, Run}
use racoon.Ds.Rwlock.Run.{start, later}
use racoon.Ds.Rwlock.Move.{
  call_read, call_write, lock_read, read_open, read_closed, load_readers, store_readers,
  unlock_read, lock_write, write_open, write_closed, unlock_retry, unlock_write, see_writer,
  reset_request, reset_writers, see_no_writer, decrement,
}
use racoon.Ds.Rwlock.Counts.{count, count-update, count_some}
use racoon.Ds.Rwlock.Invariant.{reads, writes, Knows, Agrees, Inv, Knows-outside, Knows-fewer}

module _ (me r w r' w' d k : ℕ) (m : Rwlock) (small : k + 1 < 2 ^ 32) (v : Agrees r w d k m) where
  words_after :
      (q : Pc) (m' : Rwlock) (p : Pc)
      → Move me m q m' p
      → Knows r w d k m.spinlock me q
      → r' + (if reads q then 1 else 0) ≡ r + (if reads p then 1 else 0)
      → w' + (if writes q then 1 else 0) ≡ w + (if writes p then 1 else 0)
      → Agrees r' w' d (k + 1) m'
  words_after _ _ _ call_read know cr cw = ground (arith, v, know, cr, cw)
  words_after _ _ _ call_write know cr cw = ground (arith, v, know, cr, cw)
  words_after _ _ _ (lock_read e) know cr cw = ground (arith, v, know, cr, cw)
  words_after _ _ _ (read_open e z) know cr cw = ground (arith, v, know, cr, cw)
  words_after _ _ _ (read_closed e) know cr cw = ground (arith, v, know, cr, cw)
  words_after _ _ _ load_readers know cr cw = ground (arith, v, know, cr, cw)
  words_after _ _ _ (store_readers y) know cr cw = ground (arith, v, know, cr, cw)
  words_after _ _ _ unlock_read know cr cw = ground (arith, v, know, cr, cw)
  words_after _ _ _ (lock_write e) know cr cw = ground (arith, v, know, cr, cw)
  words_after _ _ _ (write_open e z) know cr cw = ground (arith, v, know, cr, cw)
  words_after _ _ _ (write_closed e) know cr cw = ground (arith, v, know, cr, cw)
  words_after _ _ _ unlock_retry know cr cw = ground (arith, v, know, cr, cw)
  words_after _ _ _ unlock_write know cr cw = ground (arith, v, know, cr, cw)
  words_after _ _ _ (see_writer a e) know cr cw = ground (arith, v, know, cr, cw)
  words_after _ _ _ (reset_request a) know cr cw = ground (arith, v, know, cr, cw)
  words_after _ _ _ (reset_writers a) know cr cw = ground (arith, v, know, cr, cw)
  words_after _ _ _ (see_no_writer a e) know cr cw = ground (arith, v, know, cr, cw)
  words_after _ _ _ (decrement a) know cr cw = ground (arith, v, know, cr, cw)

  mine_after :
      (q : Pc) (m' : Rwlock) (p : Pc)
      → Move me m q m' p
      → Knows r w d k m.spinlock me q
      → r' + (if reads q then 1 else 0) ≡ r + (if reads p then 1 else 0)
      → w' + (if writes q then 1 else 0) ≡ w + (if writes p then 1 else 0)
      → (if reads q then 1 else 0) ≤ r
      → (if writes q then 1 else 0) ≤ w
      → Knows r' w' d (k + 1) m'.spinlock me p
  mine_after _ _ _ call_read know cr cw br bw = ground (arith, v, know, cr, cw, br, bw)
  mine_after _ _ _ call_write know cr cw br bw = ground (arith, v, know, cr, cw, br, bw)
  mine_after _ _ _ (lock_read e) know cr cw br bw = ground (arith, v, know, cr, cw, br, bw)
  mine_after _ _ _ (read_open e z) know cr cw br bw = ground (arith, v, know, cr, cw, br, bw)
  mine_after _ _ _ (read_closed e) know cr cw br bw = ground (arith, v, know, cr, cw, br, bw)
  mine_after _ _ _ load_readers know cr cw br bw = ground (arith, v, know, cr, cw, br, bw)
  mine_after _ _ _ (store_readers y) know cr cw br bw = ground (arith, v, know, cr, cw, br, bw)
  mine_after _ _ _ unlock_read know cr cw br bw = ground (arith, v, know, cr, cw, br, bw)
  mine_after _ _ _ (lock_write e) know cr cw br bw = ground (arith, v, know, cr, cw, br, bw)
  mine_after _ _ _ (write_open e z) know cr cw br bw = ground (arith, v, know, cr, cw, br, bw)
  mine_after _ _ _ (write_closed e) know cr cw br bw = ground (arith, v, know, cr, cw, br, bw)
  mine_after _ _ _ unlock_retry know cr cw br bw = ground (arith, v, know, cr, cw, br, bw)
  mine_after _ _ _ unlock_write know cr cw br bw = ground (arith, v, know, cr, cw, br, bw)
  mine_after _ _ _ (see_writer reading e) know cr cw br bw = ground (arith, v, know, cr, cw, br, bw)
  mine_after _ _ _ (see_writer writing e) know cr cw br bw = ground (arith, v, know, cr, cw, br, bw)
  mine_after _ _ _ (reset_request a) know cr cw br bw = ground (arith, v, know, cr, cw, br, bw)
  mine_after _ _ _ (reset_writers a) know cr cw br bw = ground (arith, v, know, cr, cw, br, bw)
  mine_after _ _ _ (see_no_writer reading e) know cr cw br bw =
      ground (arith, v, know, cr, cw, br, bw)
  mine_after _ _ _ (see_no_writer writing e) know cr cw br bw =
      ground (arith, v, know, cr, cw, br, bw)
  mine_after _ _ _ (decrement a) know cr cw br bw = ground (arith, v, know, cr, cw, br, bw)

  others_after :
      (q : Pc) (m' : Rwlock) (p : Pc)
      → Move me m q m' p
      → Knows r w d k m.spinlock me q
      → r' + (if reads q then 1 else 0) ≡ r + (if reads p then 1 else 0)
      → w' + (if writes q then 1 else 0) ≡ w + (if writes p then 1 else 0)
      → (j : ℕ) (x : Pc) → me ≢ j
      → Knows r w d k m.spinlock j x
      → Knows r' w' d (k + 1) m'.spinlock j x
  others_after _ _ _ call_read know cr cw j x ne h =
      Knows-fewer r w r' w' d k m.spinlock j x (ground (arith, know, cr)) (ground (arith, know, cw))
        h
  others_after _ _ _ call_write know cr cw j x ne h =
      Knows-fewer r w r' w' d k m.spinlock j x (ground (arith, know, cr)) (ground (arith, know, cw))
        h
  others_after _ _ _ (lock_read e) know cr cw j x ne h =
      Knows-outside r w r' w' d k m.spinlock j (k + 1) _ x (ground (arith, e)) h
  others_after _ _ _ (read_open e z) know cr cw j x ne h =
      Knows-fewer r w r' w' d k m.spinlock j x (ground (arith, know, cr)) (ground (arith, know, cw))
        h
  others_after _ _ _ (read_closed e) know cr cw j x ne h =
      Knows-outside r w r' w' d k m.spinlock j (k + 1) _ x (ground (arith, know, ne)) h
  others_after _ _ _ load_readers know cr cw j x ne h =
      Knows-outside r w r' w' d k m.spinlock j (k + 1) _ x (ground (arith, know, ne)) h
  others_after _ _ _ (store_readers y) know cr cw j x ne h =
      Knows-outside r w r' w' d k m.spinlock j (k + 1) _ x (ground (arith, know, ne)) h
  others_after _ _ _ unlock_read know cr cw j x ne h =
      Knows-outside r w r' w' d k m.spinlock j (k + 1) _ x (ground (arith, know, ne)) h
  others_after _ _ _ (lock_write e) know cr cw j x ne h =
      Knows-outside r w r' w' d k m.spinlock j (k + 1) _ x (ground (arith, e)) h
  others_after _ _ _ (write_open e z) know cr cw j x ne h =
      Knows-outside r w r' w' d k m.spinlock j (k + 1) _ x (ground (arith, know, ne)) h
  others_after _ _ _ (write_closed e) know cr cw j x ne h =
      Knows-outside r w r' w' d k m.spinlock j (k + 1) _ x (ground (arith, know, ne)) h
  others_after _ _ _ unlock_retry know cr cw j x ne h =
      Knows-outside r w r' w' d k m.spinlock j (k + 1) _ x (ground (arith, know, ne)) h
  others_after _ _ _ unlock_write know cr cw j x ne h =
      Knows-outside r w r' w' d k m.spinlock j (k + 1) _ x (ground (arith, know, ne)) h
  others_after _ _ _ (see_writer a e) know cr cw j x ne h =
      Knows-fewer r w r' w' d k m.spinlock j x (ground (arith, know, cr)) (ground (arith, know, cw))
        h
  others_after _ _ _ (reset_request a) know cr cw j x ne h =
      Knows-fewer r w r' w' d k m.spinlock j x (ground (arith, know, cr)) (ground (arith, know, cw))
        h
  others_after _ _ _ (reset_writers a) know cr cw j x ne h =
      Knows-fewer r w r' w' d k m.spinlock j x (ground (arith, know, cr)) (ground (arith, know, cw))
        h
  others_after _ _ _ (see_no_writer a e) know cr cw j x ne h =
      Knows-fewer r w r' w' d k m.spinlock j x (ground (arith, know, cr)) (ground (arith, know, cw))
        h
  others_after _ _ _ (decrement a) know cr cw j x ne h =
      Knows-fewer r w r' w' d k m.spinlock j x (ground (arith, know, cr)) (ground (arith, know, cw))
        h

count_mine :
    (test : Pc → Bool) (n i : ℕ) (pc : ℕ → Pc)
    → i < n
    → (if test (pc i) then 1 else 0) ≤ count test n pc
count_mine test n i pc h = elim (Bool-cases (test (pc i))) [
  | inl e ↦ ground (arith, e, count_some test pc n i h e)
  | inr e ↦ ground (arith, e)
]

moved-Inv :
    (n d k i : ℕ) (s : System) (m : Rwlock) (p : Pc)
    → k + 1 < 2 ^ 32
    → Inv n d k s
    → i < n
    → Move i s.lock (s.pc i) m p
    → Inv n d (k + 1) (moved s i m p)
moved-Inv n d k i s m p small v h move =
    let r = count reads n s.pc in
    let w = count writes n s.pc in
    let r' = count reads n (update s.pc i p) in
    let w' = count writes n (update s.pc i p) in
    let cr = count-update reads s.pc i p n h in
    let cw = count-update writes s.pc i p n h in
    let know = v.known i h in
    record {
      words = words_after i r w r' w' d k s.lock small v.words (s.pc i) m p move know cr cw;
      known = λ j lt. elim (ℕ_discrete i j) [
        | yes e ↦
            let here : p ≡ update s.pc i p j = ground (arith, e) in
            subst₂ (λ t x. Knows r' w' d (k + 1) m.spinlock t x) e here
              (mine_after i r w r' w' d k s.lock small v.words (s.pc i) m p move know cr cw
                (count_mine reads n i s.pc h) (count_mine writes n i s.pc h))
        | no ne ↦
            let there : s.pc j ≡ update s.pc i p j = ground (arith, ne) in
            subst (λ x. Knows r' w' d (k + 1) m.spinlock j x) there
              (others_after i r w r' w' d k s.lock small v.words (s.pc i) m p move know cr cw j
                (s.pc j) ne (v.known j lt))
      ];
    }

-- The invariant after any run.
pub Run-Inv :
    (n d b : ℕ) (s : System)
    → Inv n d b s
    → (k : ℕ) (t : System) → Run n s k t
    → b + k < 2 ^ 32
    → Inv n d (b + k) t
Run-Inv n d b s v _ _ start small = subst (λ k. Inv n d k s) (omega arith) v
Run-Inv n d b s v _ _ (later {k} {t} i {m} {p} run h move) small =
    subst (λ k'. Inv n d k' (moved t i m p)) (omega arith)
      (moved-Inv n d (b + k) i t m p (omega arith) (Run-Inv n d b s v k t run (omega arith)) h move)
