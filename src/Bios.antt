-- ===== src/Bios.antt =====
-- What the code uses of SYS/BIOS and the XDC runtime, which the repository does not contain: counting
-- semaphores, a heap of equal blocks (HeapBuf) and first-in first-out lists. Each comes with the laws
-- that its documentation states.
pub mod Tests
use benchmarks_m3_dsp_unopti.Base.{ℕ, suc, ◌≡◌, ◌⊎◌, Option, none, some, List, [], ◌∷◌, ◌++◌}

pub record Bios (E : Type 0) : Type 1 where
  -- Semaphore_create, Semaphore_post, and Semaphore_pend as it returns: `none` is a timeout.
  pub Sem : Type 0
  pub count : Sem → ℕ
  pub sem_create : ℕ → Sem
  pub sem_post : Sem → Sem
  pub sem_pend : Sem → Option Sem
  pub count-create : (n : ℕ) → count (sem_create n) ≡ n
  pub count-post : (s : Sem) → count (sem_post s) ≡ suc (count s)
  pub pend_cases :
      (s : Sem)
      → ((count s ≡ 0) × (sem_pend s ≡ none))
        ⊎ ((t : Sem) × (sem_pend s ≡ some t) × (count s ≡ suc (count t)))
  -- HeapBuf_alloc of a size (`none` is NULL), HeapBuf_free, and the blocks that are free.
  pub Heap : Type 0
  pub blocks : Heap → ℕ
  pub heap_alloc : Heap → ℕ → Option Heap
  pub heap_free : Heap → Heap
  pub alloc_takes : (h g : Heap) (size : ℕ) → heap_alloc h size ≡ some g → blocks h ≡ suc (blocks g)
  pub free_gives : (h : Heap) → blocks (heap_free h) ≡ suc (blocks h)
  -- List_create, List_put, and List_get (`none` is NULL).
  pub Fifo : Type 0
  pub entries : Fifo → List E
  pub fifo_create : Fifo
  pub fifo_put : Fifo → E → Fifo
  pub fifo_get : Fifo → Option (E × Fifo)
  pub entries-create : entries fifo_create ≡ []
  pub entries-put : (q : Fifo) (e : E) → entries (fifo_put q e) ≡ entries q ++ e ∷ []
  pub get_cases :
      (q : Fifo)
      → ((entries q ≡ []) × (fifo_get q ≡ none))
        ⊎ ((e : E) × (r : Fifo) × (fifo_get q ≡ some (e, r)) × (entries q ≡ e ∷ entries r))
