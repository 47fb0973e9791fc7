-- ===== src/Sync/Steps.antt =====
-- The steps of kern/sync.c keep the word, the count and the queue in step with the threads.
use elos.Base.{
  ℕ, zero, suc, ◌^◌, ◌≤◌, ◌<◌, ◌≡◌, refl, sym, ◌∙◌, ap, subst, [], ◌∷◌, ◌++◌, arith, count, remove,
  count-append_self, count-append_other, count-remove_self, count-remove_other,
}
use elos.Phys.Sum.{sum_to, le-sum_to}
use elos.Sync.{
  Pc, outside, trying, failed, counted, listed, asleep, notified, back, holding, released, waking,
  panicked, System, put, write, inc_waiting, dec_waiting,
}
use elos.Sync.Inv.{
  is_holding, is_waiting, is_queued, is_asleep, is_active, Sound, Inv, total-put, put_all,
  write-Inv, same_holder, same_queue, active_self,
}

-- the sum of a family of bits is at most the number of its members
total_bits : (n : ℕ) (g : ℕ → ℕ) → ((i : ℕ) → g i ≤ 1) → sum_to n g ≤ n
unfolding sum_to
total_bits zero g b = omega arith
total_bits (suc n) g b = omega (arith, total_bits n g b, b n)

pub total_mono : (n : ℕ) (g h : ℕ → ℕ) → ((i : ℕ) → g i ≤ h i) → sum_to n g ≤ sum_to n h
unfolding sum_to
total_mono zero g h b = omega arith
total_mono (suc n) g h b = omega (arith, total_mono n g h b, b n)

is_waiting-le : (p : Pc) → is_waiting p ≤ 1
is_waiting-le outside = omega arith
is_waiting-le trying = omega arith
is_waiting-le (failed l) = omega arith
is_waiting-le (counted l) = omega arith
is_waiting-le (listed l) = omega arith
is_waiting-le asleep = omega arith
is_waiting-le notified = omega arith
is_waiting-le back = omega arith
is_waiting-le holding = omega arith
is_waiting-le released = omega arith
is_waiting-le waking = omega arith
is_waiting-le panicked = omega arith

pub is_asleep_le-queued : (p : Pc) → is_asleep p ≤ is_queued p
is_asleep_le-queued asleep = omega arith
is_asleep_le-queued outside = omega arith
is_asleep_le-queued trying = omega arith
is_asleep_le-queued (failed l) = omega arith
is_asleep_le-queued (counted l) = omega arith
is_asleep_le-queued (listed l) = omega arith
is_asleep_le-queued notified = omega arith
is_asleep_le-queued back = omega arith
is_asleep_le-queued holding = omega arith
is_asleep_le-queued released = omega arith
is_asleep_le-queued waking = omega arith
is_asleep_le-queued panicked = omega arith

pub queued_le-waiting : (p : Pc) → is_queued p ≤ is_waiting p
queued_le-waiting asleep = omega arith
queued_le-waiting outside = omega arith
queued_le-waiting trying = omega arith
queued_le-waiting (failed l) = omega arith
queued_le-waiting (counted l) = omega arith
queued_le-waiting (listed l) = omega arith
queued_le-waiting notified = omega arith
queued_le-waiting back = omega arith
queued_le-waiting holding = omega arith
queued_le-waiting released = omega arith
queued_le-waiting waking = omega arith
queued_le-waiting panicked = omega arith

module _ (n : ℕ) (s : System) (inv : Inv n s) (i : ℕ) (l : i < n) where
  -- the number of waiting threads does not overflow
  waiting_few : s.sync.waiting ≤ n
  waiting_few =
      omega
        (arith, inv.waiters, total_bits n (λ k. is_waiting (s.pc k)) (λ k. is_waiting-le (s.pc k)))

  waiting_self : is_waiting (s.pc i) ≤ s.sync.waiting
  waiting_self = omega (arith, inv.waiters, le-sum_to n i (λ k. is_waiting (s.pc k)) l)

  -- A step that leaves lock and queue alone, to a place where the thread is active.
  pub plain-Inv :
      (p : Pc)
      → is_holding p ≡ is_holding (s.pc i)
      → is_waiting p ≡ is_waiting (s.pc i)
      → is_queued p ≡ is_queued (s.pc i)
      → Sound p
      → is_active p ≡ suc 0
      → Inv n (write s i s.sync s.queue p)
  plain-Inv p h w q ok act = write-Inv n s i s.sync s.queue p inv l record {
    holder = same_holder n s i p inv h;
    owner = inv.owner;
    waiters = omega (arith, w);
    queued = same_queue n s i p inv q;
    sound = ok;
    progress = active_self n s i p l act;
  }

  pub inc-Inv :
      (lock : ℕ)
      → n < 2 ^ 16
      → s.pc i ≡ failed lock
      → Inv n (write s i (inc_waiting s.sync) s.queue (counted lock))
  unfolding inc_waiting
  inc-Inv lock small at =
      let one_more = waiting_room lock at in
      write-Inv n s i (inc_waiting s.sync) s.queue (counted lock) inv l record {
        holder = same_holder n s i (counted lock) inv (sym (ap is_holding at));
        owner = inv.owner;
        waiters = omega (arith, ap is_waiting at, one_more, small);
        queued = same_queue n s i (counted lock) inv (sym (ap is_queued at));
        sound = subst Sound at (inv.sound i);
        progress = active_self n s i (counted lock) l refl;
      }
    where
      waiting_room : (lock : ℕ) → s.pc i ≡ failed lock → suc s.sync.waiting ≤ n
      waiting_room lock at =
          let p : Pc = counted lock in
          let bits =
            total_bits n (λ k. is_waiting (put s.pc i p k)) (λ k. is_waiting-le (put s.pc i p k)) in
          omega (arith, bits, total-put n is_waiting s.pc i p l, inv.waiters, ap is_waiting at)

  pub dec-Inv : n < 2 ^ 16 → s.pc i ≡ back → Inv n (write s i (dec_waiting s.sync) s.queue trying)
  unfolding dec_waiting
  dec-Inv small at = write-Inv n s i (dec_waiting s.sync) s.queue trying inv l record {
    holder = same_holder n s i trying inv (sym (ap is_holding at));
    owner = inv.owner;
    waiters = omega (arith, ap is_waiting at, waiting_self, waiting_few, small);
    queued = same_queue n s i trying inv (sym (ap is_queued at));
    sound = tt;
    progress = active_self n s i trying l refl;
  }

  pub list-Inv :
      (lock : ℕ)
      → s.pc i ≡ counted lock
      → Inv n (write s i s.sync (s.queue ++ (i ∷ [])) (listed lock))
  list-Inv lock at = write-Inv n s i s.sync (s.queue ++ (i ∷ [])) (listed lock) inv l record {
    holder = same_holder n s i (listed lock) inv (sym (ap is_holding at));
    owner = inv.owner;
    waiters = omega (arith, ap is_waiting at);
    queued =
        put_all (λ j q. count j (s.queue ++ (i ∷ [])) ≡ is_queued q) s.pc i (listed lock)
          (λ j ne. count-append_other j i s.queue (λ e. ne (sym e)) ∙ inv.queued j)
          (omega (arith, count-append_self i s.queue, inv.queued i, ap is_queued at));
    sound = subst Sound at (inv.sound i);
    progress = active_self n s i (listed lock) l refl;
  }

  -- A thread that left the queue.
  pub unlist-Inv :
      (p : Pc)
      → is_queued (s.pc i) ≡ suc 0
      → is_holding p ≡ is_holding (s.pc i)
      → is_waiting p ≡ is_waiting (s.pc i)
      → is_queued p ≡ 0
      → Sound p
      → is_active p ≡ suc 0
      → Inv n (write s i s.sync (remove i s.queue) p)
  unlist-Inv p was h w q ok act = write-Inv n s i s.sync (remove i s.queue) p inv l record {
    holder = same_holder n s i p inv h;
    owner = inv.owner;
    waiters = omega (arith, w);
    queued =
        put_all (λ j r. count j (remove i s.queue) ≡ is_queued r) s.pc i p
          (λ j ne. count-remove_other i j s.queue ne ∙ inv.queued j)
          (omega (arith, count-remove_self i s.queue, inv.queued i, was, q));
    sound = ok;
    progress = active_self n s i p l act;
  }
