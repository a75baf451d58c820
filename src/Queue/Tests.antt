-- ===== src/Queue/Tests.antt =====
-- The theorems on rings of two and four slots.
use hermes_orderbook.Prelude.{ℕ, ◌+◌, ◌≡◌, ◌≢◌, ◌≤◌, ◌<◌, refl, List, [], ◌∷◌, take}
use hermes_orderbook.Queue.Spsc.{
  writing, waiting, reading, releasing, SpscQueue, next_index, empty_queue, push_check, push_write,
  push_publish, pop_check, pop_read, Reach, start, checks_push, writes, publishes, checks_pop,
  reads, releases,
}
use hermes_orderbook.Queue.Spsc.Fifo.{Reach-fifo}
use hermes_orderbook.Queue.Spsc.Answers.{Reach-apart}

abbrev checked : SpscQueue ℕ
checked = push_check 2 7 (empty_queue 0)

abbrev one : SpscQueue ℕ
one = push_publish 2 (push_write 7 checked)

checked-Reach : Reach 2 checked [] []
checked-Reach = checks_push 7 (start 0) refl

checked-writing : checked.producer ≡ writing 7
unfolding push_check next_index
checked-writing = refl

checked-waiting : checked.consumer ≡ waiting
unfolding push_check next_index
checked-waiting = refl

one-Reach : Reach 2 one (7 ∷ []) []
one-Reach = publishes 7 (writes 7 checked-Reach checked-writing) refl

one-waiting : one.consumer ≡ waiting
one-waiting = checked-waiting

abbrev taken : SpscQueue ℕ
taken = pop_read (pop_check one)

taken-reading : (pop_check one).consumer ≡ reading
unfolding push_check pop_check next_index
taken-reading = refl

taken-releasing : taken.consumer ≡ releasing 7
unfolding push_check pop_check next_index
taken-releasing = refl

taken-Reach : Reach 2 taken (7 ∷ []) []
taken-Reach = reads (checks_pop one-Reach one-waiting) taken-reading

Reach-fifo_example : (◌≡◌ {A = List ℕ} (7 ∷ []) (take 1 (7 ∷ []))) × (1 ≤ 1) × (1 < 1 + 2)
Reach-fifo_example = Reach-fifo 2 (1, refl) (releases 7 taken-Reach taken-releasing)

abbrev both : SpscQueue ℕ
both = push_check 4 8 (pop_check (push_publish 4 (push_write 7 (push_check 4 7 (empty_queue 0)))))

both-Reach : Reach 4 both (7 ∷ []) []
unfolding push_check pop_check next_index
both-Reach =
    checks_push 8
      (checks_pop (publishes 7 (writes 7 (checks_push 7 (start 0) refl) refl) refl) refl) refl

both-writing : both.producer ≡ writing 8
unfolding push_check pop_check next_index
both-writing = refl

both-reading : both.consumer ≡ reading
unfolding push_check pop_check next_index
both-reading = refl

Reach-apart_example : both.head ≢ both.tail
Reach-apart_example = Reach-apart 4 (2, refl) both-Reach 8 both-writing both-reading
