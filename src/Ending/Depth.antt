-- ===== src/Ending/Depth.antt =====
-- Up to the next round of a loop in its callback, only finitely much is left to be done of a call.
use mathlib.Core.WellFounded.{Acc}
use contention_queue.Prelude.{
  ℕ, zero, suc, ◌≡◌, ◌≤◌, ◌<◌, inl, inr, refl, sym, subst, Option, arith,
}
use contention_queue.Interface.{Client, Callback}
use contention_queue.Handle.{QueueHandle}
use contention_queue.World.{Pc, running, unlocked}
use contention_queue.Ending.{Below, Inside, Follows, rank}

module _ {c : Client} where
  -- Outside a callback the rank says all.
  Inside-rank : (p' p : Pc c) → Inside p' p → rank p ≡ 5
  Inside-rank p' (running h k) b = refl
  Inside-rank p' (unlocked h k) b = refl
  Inside-rank p' _ b = absurd (ground arith)

  Acc-after : (n : ℕ) (p : Pc c) → rank p < n → n ≤ 5 → Acc Below p
  Acc-after zero p lt le = absurd (omega arith)
  Acc-after (suc n) p lt le = Acc.intro p (λ p' b. elim b [
    | inl lower ↦ Acc-after n p' (omega arith) (omega arith)
    | inr inside ↦ let same = Inside-rank p' p inside in absurd (omega (arith, same))
  ])

  Acc-running :
      (k : Callback c)
      → ((k' : Callback c) (h : QueueHandle) → Follows k' k → Acc Below (running h k'))
      → ((x : Option c.Output → Callback c) (h' h : QueueHandle)
          → Inside (unlocked h' x) (running h k)
          → Acc Below (unlocked h' x))
      → (h : QueueHandle) → Acc Below (running h k)
  Acc-running k on out h = Acc.intro (running h k) go
    where
      go : (p' : Pc c) → Below p' (running h k) → Acc Below p'
      go p' (inl lower) = Acc-after 5 p' lower (omega arith)
      go (running h' k') (inr b) = on k' h' b
      go (unlocked h' x) (inr b) = out x h' h b
      go _ (inr b) = absurd b

  Acc-unlocked :
      (k : Option c.Output → Callback c)
      → ((o : Option c.Output) (h : QueueHandle) → Acc Below (running h (k o)))
      → (h : QueueHandle) → Acc Below (unlocked h k)
  Acc-unlocked k f h = Acc.intro (unlocked h k) go
    where
      go : (p' : Pc c) → Below p' (unlocked h k) → Acc Below p'
      go p' (inl lower) = Acc-after 5 p' lower (omega arith)
      go (running h' k') (inr (o, e)) = subst (λ x. Acc Below (running h' x)) (sym e) (f o h')
      go _ (inr b) = absurd b

  -- The rest of a callback, by the rest of it that one answer leaves.
  Acc-answer :
      {A : Type 0} (k : A → Callback c)
      → ((a : A) (h : QueueHandle) → Acc Below (running h (k a)))
      → (k' : Callback c) (h : QueueHandle) → (a : A) × (k' ≡ k a)
      → Acc Below (running h k')
  Acc-answer k f k' h (a, e) = subst (λ x. Acc Below (running h x)) (sym e) (f a h)

  Acc-same :
      (k : Callback c)
      → ((h : QueueHandle) → Acc Below (running h k))
      → (k' : Callback c) (h : QueueHandle) → k' ≡ k
      → Acc Below (running h k')
  Acc-same k f k' h e = subst (λ x. Acc Below (running h x)) (sym e) (f h)

  Acc-callback : (k : Callback c) (h : QueueHandle) → Acc Below (running h k)
  Acc-callback (Callback.return r) =
      Acc-running (Callback.return r) (λ k' h b. absurd b) (λ x h' h b. absurd b)
  Acc-callback Callback.panic =
      Acc-running Callback.panic (λ k' h b. absurd b) (λ x h' h b. absurd b)
  Acc-callback Callback.again =
      Acc-running Callback.again (λ k' h b. absurd b) (λ x h' h b. absurd b)
  Acc-callback (Callback.peek k) =
      Acc-running (Callback.peek k) (Acc-answer k (λ o. Acc-callback (k o))) (λ x h' h b. absurd b)
  Acc-callback (Callback.pop k) =
      Acc-running (Callback.pop k) (Acc-answer k (λ o. Acc-callback (k o))) (λ x h' h b. absurd b)
  Acc-callback (Callback.mutex_state k) =
      Acc-running (Callback.mutex_state k) (Acc-answer k (λ m. Acc-callback (k m)))
        (λ x h' h b. absurd b)
  Acc-callback (Callback.set_mutex_state m k) =
      Acc-running (Callback.set_mutex_state m k) (Acc-same k (Acc-callback k))
        (λ x h' h b. absurd b)
  Acc-callback (Callback.front_state k) =
      Acc-running (Callback.front_state k) (Acc-answer k (λ f. Acc-callback (k f)))
        (λ x h' h b. absurd b)
  Acc-callback (Callback.set_front_state f k) =
      Acc-running (Callback.set_front_state f k) (Acc-same k (Acc-callback k))
        (λ x h' h b. absurd b)
  Acc-callback (Callback.unlocked k) =
      Acc-running (Callback.unlocked k) (λ k' h b. absurd b)
        (λ x h' h e.
          subst (λ y. Acc Below (unlocked h' y)) (sym e)
            (Acc-unlocked k (λ o. Acc-callback (k o)) h'))
  Acc-callback (Callback.is_queue_poisoned k) =
      Acc-running (Callback.is_queue_poisoned k) (Acc-answer k (λ b. Acc-callback (k b)))
        (λ x h' h b. absurd b)
  Acc-callback (Callback.clear_queue_poison k) =
      Acc-running (Callback.clear_queue_poison k) (Acc-same k (Acc-callback k))
        (λ x h' h b. absurd b)

  Acc-rank : (n : ℕ) (p : Pc c) → rank p < n → Acc Below p
  Acc-rank zero p lt = absurd (omega arith)
  Acc-rank (suc n) (running h k) lt = Acc-callback k h
  Acc-rank (suc n) (unlocked h k) lt = Acc-unlocked k (λ o. Acc-callback (k o)) h
  Acc-rank (suc n) p lt = Acc.intro p (λ p' b. elim b [
    | inl lower ↦ Acc-rank n p' (omega arith)
    | inr inside ↦ let same = Inside-rank p' p inside in absurd (omega (arith, same))
  ])

  -- No place of a thread has an endless way down.
  pub Acc-Below : (p : Pc c) → Acc Below p
  Acc-Below p = Acc-rank (suc (rank p)) p (omega arith)
