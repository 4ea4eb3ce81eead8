-- ===== src/FcQueue/Laws.antt =====
-- The serial operations implement a queue, whatever addresses the allocator hands out.
use public_conc_exp.Common.{
  ℕ, ◌+◌, ◌<◌, ◌≡◌, ◌≢◌, refl, true, none, some, List, [], ◌∷◌, ◌++◌, arith, ℤ, pos, minus_one, Run,
  ok, spins, ◌>>=◌, length, length-append, subst, sym, ap, ◌∙◌,
}
use public_conc_exp.Spec.Requests.{Request, add, remove, Reply, done, got, queue_step, serve}
use public_conc_exp.FcQueue.{
  Ptr, null, node, Heap, FcQueueStruct, update, serial_enqueue, serial_dequeue, size,
}
use public_conc_exp.FcQueue.Path.{
  IsHolding, path_last, IsPath-grown, size_from-path, size_from-loop,
}

-- One request, with the address for its new node.
unfoldable pub request : Ptr × Request → FcQueueStruct → Run (FcQueueStruct × Reply)
request (n, add v) s = do (s', r) ← serial_enqueue n v s; ok (s', done true)
request (n, remove) s = do (s', v) ← serial_dequeue s; ok (s', got v)

unfoldable pub requests : List (Ptr × Request) → FcQueueStruct → Run (FcQueueStruct × List Reply)
requests [] s = ok (s, [])
requests (r ∷ rs) s = do
  (s', reply) ← request r s
  (t, replies) ← requests rs s'
  ok (t, reply ∷ replies)

abbrev pub asked : List (Ptr × Request) → List Request
asked [] = []
asked ((n, r) ∷ rs) = r ∷ asked rs

abbrev pub IsApart : Ptr → List (Ptr × Request) → Type 0
IsApart n [] = Unit
IsApart n ((m, r) ∷ rs) = (m ≢ n) × IsApart n rs

-- The addresses are not null, not in use, and all different.
abbrev pub IsFree : Heap → List (Ptr × Request) → Type 0
IsFree h [] = Unit
IsFree h ((n, r) ∷ rs) = (n ≢ null) × (h n ≡ none) × IsApart n rs × IsFree h rs

IsFree-keep :
    (h g : Heap) (n : Ptr) (rs : List (Ptr × Request))
    → ((a : Ptr) → a ≢ n → h a ≡ none → g a ≡ none)
    → IsApart n rs
    → IsFree h rs
    → IsFree g rs
IsFree-keep h g n [] keep apart free = tt
IsFree-keep h g n ((m, r) ∷ rs) keep (ne, apart) (nn, e, a, free) =
    (nn, keep m ne e, a, IsFree-keep h g n rs keep apart free)

-- What the new node of `serial_enqueue` leads to: on an empty queue, to itself.
abbrev pub next_of_new : List ℤ → Ptr → Ptr
next_of_new [] n = n
next_of_new (v ∷ vs) n = null

-- Enqueuing on any queue succeeds and uses one address.
serial_enqueue_lem :
    (s : FcQueueStruct) (vs : List ℤ) (n : Ptr) (x : ℤ)
    → IsHolding s vs
    → n ≢ null
    → s.heap n ≡ none
    → (t : FcQueueStruct) × (serial_enqueue n x s ≡ ok (t, pos 0))
      × IsHolding t (vs ++ x ∷ [])
      × ((a : Ptr) → a ≢ n → s.heap a ≡ none → t.heap a ≡ none)
      × (t.last ≡ n)
      × (t.heap n ≡ some (node x (next_of_new vs n)))
unfolding serial_enqueue
serial_enqueue_lem s [] n x (ef, el) nn free = (
  record { first = n; last = n; heap = update (update s.heap n (node x null)) n (node x n) },
  ground arith,
  (refl, nn, (n, ground (arith))),
  λ a ne e. ground arith,
  refl,
  ground arith,
)
serial_enqueue_lem s (v ∷ vs) n x path nn free =
    let (nl, (u, c, at_last)) = path_last s.heap s.first v vs s.last path in
    (
      record {
        first = s.first;
        last = n;
        heap = update (update s.heap n (node x null)) s.last (node u n);
      },
      ground arith,
      IsPath-grown s.heap (update (update s.heap n (node x null)) s.last (node u n)) s.last n x
          (λ a nq na. ground arith) (λ w d at_q. ground arith) (ground arith) free nn s.first v vs
          path,
      λ a ne e. ground arith,
      refl,
      ground arith,
    )

serial_dequeue_lem :
    (s : FcQueueStruct) (v : ℤ) (vs : List ℤ)
    → IsHolding s (v ∷ vs)
    → (t : FcQueueStruct) × (serial_dequeue s ≡ ok (t, v)) × IsHolding t vs × (t.heap ≡ s.heap)
unfolding serial_dequeue
serial_dequeue_lem s v [] (e, ne, (n, here)) =
    (record s { first = null; last = null }, ground arith, (refl, refl), refl)
serial_dequeue_lem s v (w ∷ vs) (ne, nn, (n, here, rest)) =
    (record s { first = n }, ground arith, rest, refl)

serial_dequeue_empty : (s : FcQueueStruct) → IsHolding s [] → serial_dequeue s ≡ ok (s, minus_one)
unfolding serial_dequeue
serial_dequeue_empty s (ef, el) = ground arith

-- Any sequence of enqueues and dequeues, whatever fresh addresses the new nodes get, ends without a
-- fault, in the contents and with the replies that the specification of a queue gives.
pub enqueue-dequeue-serve :
    (rs : List (Ptr × Request)) (s : FcQueueStruct) (vs : List ℤ)
    → IsHolding s vs
    → IsFree s.heap rs
    → (t : FcQueueStruct) × (requests rs s ≡ ok (t, (serve queue_step (asked rs) vs).1))
      × IsHolding t (serve queue_step (asked rs) vs).0
unfolding requests request serve queue_step
enqueue-dequeue-serve [] s vs held free = (s, refl, held)
enqueue-dequeue-serve ((n, add x) ∷ rs) s vs held (nn, e, apart, free) =
    let (t, run, held', keep, at_last, at_new) = serial_enqueue_lem s vs n x held nn e in
    let (u, runs, end) =
      enqueue-dequeue-serve rs t (vs ++ x ∷ []) held'
        (IsFree-keep s.heap t.heap n rs keep apart free) in
    (u, rw (run, runs), end)
enqueue-dequeue-serve ((n, remove) ∷ rs) s [] held (nn, e, apart, free) =
    let (u, runs, end) = enqueue-dequeue-serve rs s [] held free in
    (u, rw (serial_dequeue_empty s held, runs), end)
enqueue-dequeue-serve ((n, remove) ∷ rs) s (v ∷ vs) held (nn, e, apart, free) =
    let (t, run, held', same) = serial_dequeue_lem s v vs held in
    let (u, runs, end) =
      enqueue-dequeue-serve rs t vs held' (subst (λ h. IsFree h rs) (sym same) free) in
    (u, rw (run, runs), end)

abbrev pub size_after : List ℤ → Run ℕ
size_after [] = spins
size_after (v ∷ vs) = ok (length vs + 2)

-- With more rounds than there are nodes, `size` ends after an enqueue on a queue that is not empty,
-- with the number of nodes, and does not end after an enqueue on an empty queue.
pub serial_enqueue-size :
    (s : FcQueueStruct) (vs : List ℤ) (n : Ptr) (x : ℤ) (fuel : ℕ)
    → IsHolding s vs
    → n ≢ null
    → s.heap n ≡ none
    → length vs + 1 < fuel
    → (t : FcQueueStruct) × (serial_enqueue n x s ≡ ok (t, pos 0)) × (size fuel t ≡ size_after vs)
unfolding size
serial_enqueue-size s [] n x fuel held nn e enough =
    let (t, run, (ef, en, held'), keep, at_last, at_new) = serial_enqueue_lem s [] n x held nn e in
    (t, run, size_from-loop t.heap fuel 0 t.first x en (ground arith))
serial_enqueue-size s (v ∷ vs) n x fuel held nn e enough =
    let (t, run, held', keep, at_last, at_new) = serial_enqueue_lem s (v ∷ vs) n x held nn e in
    let grown = length-append vs (x ∷ []) in
    let counted =
      size_from-path t.heap fuel 0 t.first v (vs ++ x ∷ []) t.last held' (x, ground arith)
        (omega (arith, grown)) in
    (t, run, counted ∙ ap ok (omega (arith, grown)))
