-- ===== src/Queue/Worker/Kept.antt =====
-- About the rows of the table of packages/queue/src/worker.ts by their identifiers: those that are all
-- reserved, and those that were given out.
use strav_1_x.Common.{
  ℕ, ◌≢◌, ◌<◌, ◌≤◌, ◌==◌, String, Bool, true, not, ◌&&◌, ◌||◌, ◌≡◌, refl, List, [], ◌∷◌, ◌++◌, all,
  arith, ltb,
}
use strav_1_x.Queue.Jobs.{QueueRow}
use strav_1_x.Queue.Worker.{is_free, is_reserved, update_rows, delete_rows, reserve}

-- Every row of this identifier is reserved.
abbrev pub kept : ℕ → List QueueRow → Bool
kept id qs = all (λ q. not (q.job.id == id) || is_reserved q) qs

abbrev pub below : ℕ → List QueueRow → Bool
below n qs = all (λ q. ltb q.job.id n) qs

pub kept-update_other :
    (id other : ℕ) (f : QueueRow → QueueRow) (qs : List QueueRow)
    → ((q : QueueRow) → (f q).job.id ≡ q.job.id)
    → other ≢ id
    → kept id (update_rows other f qs) ≡ kept id qs
unfolding update_rows
kept-update_other id other f [] same d = refl
kept-update_other id other f (q ∷ qs) same d =
    ground (arith, d, same q, kept-update_other id other f qs same d)

pub kept-reserve :
    (id now : ℕ) (qs : List QueueRow) → kept id (update_rows id (reserve now) qs) ≡ true
unfolding update_rows
kept-reserve id now [] = refl
kept-reserve id now (q ∷ qs) = ground (arith, kept-reserve id now qs)

pub kept-delete :
    (id other : ℕ) (qs : List QueueRow) → kept id qs ≡ true → kept id (delete_rows other qs) ≡ true
unfolding delete_rows
kept-delete id other [] h = refl
kept-delete id other (q ∷ qs) h = ground (arith, h, kept-delete id other qs)

pub below-update :
    (n id : ℕ) (f : QueueRow → QueueRow) (qs : List QueueRow)
    → ((q : QueueRow) → (f q).job.id ≡ q.job.id)
    → below n (update_rows id f qs) ≡ below n qs
unfolding update_rows
below-update n id f [] same = refl
below-update n id f (q ∷ qs) same = ground (arith, same q, below-update n id f qs same)

pub below-delete :
    (n id : ℕ) (qs : List QueueRow) → below n qs ≡ true → below n (delete_rows id qs) ≡ true
unfolding delete_rows
below-delete n id [] h = refl
below-delete n id (q ∷ qs) h = ground (arith, h, below-delete n id qs)

pub below-weaken : (n m : ℕ) (qs : List QueueRow) → n ≤ m → below n qs ≡ true → below m qs ≡ true
below-weaken n m [] le h = refl
below-weaken n m (q ∷ qs) le h = ground (arith, le, h, below-weaken n m qs le)

pub below-append : (n : ℕ) (xs ys : List QueueRow) → below n (xs ++ ys) ≡ below n xs && below n ys
below-append n [] ys = refl
below-append n (x ∷ xs) ys = ground (arith, below-append n xs ys)

pub kept-append : (id : ℕ) (xs ys : List QueueRow) → kept id (xs ++ ys) ≡ kept id xs && kept id ys
kept-append id [] ys = refl
kept-append id (x ∷ xs) ys = ground (arith, kept-append id xs ys)

-- A row that may be claimed is kept for nobody.
pub kept-free :
    (queues : List String) (id now : ℕ) (q : QueueRow) (before after : List QueueRow)
    → is_free queues now q ≡ true
    → kept id (before ++ q ∷ after) ≡ true
    → q.job.id ≢ id
kept-free queues id now q before after free h =
    ground (arith, free, h, kept-append id before (q ∷ after))

pub below-issued :
    (n : ℕ) (q : QueueRow) (before after : List QueueRow)
    → below n (before ++ q ∷ after) ≡ true
    → q.job.id < n
below-issued n q before after h = ground (arith, h, below-append n before (q ∷ after))
