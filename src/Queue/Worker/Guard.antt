-- ===== src/Queue/Worker/Guard.antt =====
-- About the rows that workers are at, in packages/queue/src/worker.ts: what they have to do with the table,
-- and what each operation does to that.
use strav_1_x.Common.{
  ◌+◌, ◌*◌, ℕ, ◌≢◌, suc, ◌<◌, ◌≤◌, ◌==◌, String, true, ◌≡◌, refl, sym, ◌⊎◌, inl, inr, Option, none,
  some, List, [], ◌∷◌, ◌++◌, arith, Bool-cases, if◌then◌else◌,
}
use strav_1_x.Queue.Jobs.{QueueRow, JobRow, Broker, JobClass}
use strav_1_x.Queue.Worker.{
  Setup, delay_of, with_attempt, is_free, update_rows, claim, perform, reserve, release_at,
}
use strav_1_x.Queue.Worker.Endings.{Ended, Retried, Unmade, claim-cases, perform-cases}
use strav_1_x.Queue.Worker.Table.{Split}
use strav_1_x.Queue.Worker.Kept.{
  kept, below, kept-update_other, kept-reserve, kept-delete, below-update, below-delete,
  below-weaken, below-append, kept-append, kept-free, below-issued,
}

abbrev pub replace : (ℕ → Option JobRow) → ℕ → Option JobRow → ℕ → Option JobRow
replace f i row k = if k == i then row else f k

replace-some :
    (held : ℕ → Option JobRow) (i k : ℕ) (row : Option JobRow) (r : JobRow)
    → replace held i row k ≡ some r
    → (k ≡ i) × (row ≡ some r) ⊎ (k ≢ i) × (held k ≡ some r)
replace-some held i k row r h = elim (Bool-cases (k == i)) [
  | inl e ↦ inl (ground (arith, e), ground (arith, h, e))
  | inr e ↦ inr (ground (arith, e), ground (arith, h, e))
]

some-id : (p r : JobRow) → some p ≡ some r → p.id ≡ r.id
some-id p r e = cc

module _ {W : Type 0} where
  pub record IsGuarded (held : ℕ → Option JobRow) (b : Broker W) : Type 0 where
    pub table : below b.ids_used b.jobs ≡ true
    pub issued : (i : ℕ) (r : JobRow) → held i ≡ some r → r.id < b.ids_used
    pub reserved : (i : ℕ) (r : JobRow) → held i ≡ some r → kept r.id b.jobs ≡ true
    pub single : (i j : ℕ) (p r : JobRow) → held i ≡ some p → held j ≡ some r → p.id ≡ r.id → i ≡ j

  pub free-IsGuarded :
      (held : ℕ → Option JobRow) (b : Broker W) (i : ℕ)
      → IsGuarded held b
      → IsGuarded (replace held i none) b
  free-IsGuarded held b i g = record {
    table = g.table;
    issued = λ k r h. ground (arith, h, g.issued k r);
    reserved = λ k r h. ground (arith, h, g.reserved k r);
    single = λ j k p r h h' e. ground (arith, h, h', e, g.single j k p r);
  }

  -- The table may change, as long as it keeps the rows that are held.
  pub change-IsGuarded :
      (held : ℕ → Option JobRow) (b b' : Broker W)
      → IsGuarded held b
      → below b'.ids_used b'.jobs ≡ true
      → b.ids_used ≤ b'.ids_used
      → ((i : ℕ) (r : JobRow) → held i ≡ some r → kept r.id b'.jobs ≡ true)
      → IsGuarded held b'
  change-IsGuarded held b b' g table le stays = record {
    table = table;
    issued = λ k r h. omega (arith, le, g.issued k r h);
    reserved = stays;
    single = g.single;
  }

  take-IsGuarded :
      (queues : List String) (now i : ℕ) (held : ℕ → Option JobRow) (b : Broker W) (q : QueueRow)
      → Split b.jobs q
      → is_free queues now q ≡ true
      → IsGuarded held b
      → IsGuarded
          (replace held i (some (with_attempt q.job)))
          (record b { jobs = update_rows q.job.id (reserve now) b.jobs })
  take-IsGuarded queues now i held b q (before, after, split) free g =
      let unheld : (k : ℕ) (r : JobRow) → held k ≡ some r → q.job.id ≢ r.id = λ k r h.
        kept-free queues r.id now q before after free (rw (sym split) (g.reserved k r h)) in
      record {
        table = cc (below-update b.ids_used q.job.id (reserve now) b.jobs (λ q. refl), g.table);
        issued = λ k r h. elim (replace-some held i k _ r h) [
          | inl (e, s) ↦
              grind (arith, s, below-issued b.ids_used q before after (rw (sym split) g.table))
          | inr (d, s) ↦ g.issued k r s
        ];
        reserved = λ k r h. elim (replace-some held i k _ r h) [
          | inl (e, s) ↦ rw (sym (some-id _ r s)) (kept-reserve q.job.id now b.jobs)
          | inr (d, s) ↦ cc (
            kept-update_other r.id q.job.id (reserve now) b.jobs (λ q. refl) (unheld k r s),
            g.reserved k r s,
          )
        ];
        single = λ j k p r h h' e. elim (replace-some held i j _ p h) [
          | inl (e1, s1) ↦ elim (replace-some held i k _ r h') [
            | inl (e2, s2) ↦ cc
            | inr (d2, s2) ↦ absurd (unheld k r s2 (cc (some-id _ p s1, e)))
          ]
          | inr (d1, s1) ↦ elim (replace-some held i k _ r h') [
            | inl (e2, s2) ↦ absurd (unheld j p s1 (cc (some-id _ r s2, e)))
            | inr (d2, s2) ↦ g.single j k p r s1 s2 e
          ]
        ];
      }

  pub claim-IsGuarded :
      (queues : List String) (now i : ℕ) (held : ℕ → Option JobRow) (b : Broker W)
      → held i ≡ none
      → IsGuarded held b
      → IsGuarded (replace held i (claim queues now b).0) (claim queues now b).1
  claim-IsGuarded queues now i held b idle g = elim (claim-cases queues now b) [
    | inl (e, c) ↦ rw c (free-IsGuarded held b i g)
    | inr (q, (split, free, c)) ↦ rw c (take-IsGuarded queues now i held b q split free g)
  ]

  module _ (env : Setup W) (now i : ℕ) (row : JobRow) (held : ℕ → Option JobRow) (b : Broker W)
      (at : held i ≡ some row) (g : IsGuarded held b) where
    others_hold :
        (k : ℕ) (r : JobRow) → replace held i none k ≡ some r → (held k ≡ some r) × (row.id ≢ r.id)
    others_hold k r h = elim (replace-some held i k _ r h) [
      | inl (e, s) ↦ absurd cc
      | inr (d, s) ↦ (s, λ e. d (sym (g.single i k row r at s e)))
    ]

    Ended-IsGuarded : (b' : Broker W) → Ended row.id b b' → IsGuarded (replace held i none) b'
    Ended-IsGuarded b' (e, le) =
        change-IsGuarded (replace held i none) b b' (free-IsGuarded held b i g)
          (rw e (
            below-weaken b.ids_used b'.ids_used _ le
              (below-delete b.ids_used row.id b.jobs g.table)))
          le (λ k r h. rw e (kept-delete r.id row.id b.jobs (g.reserved k r (others_hold k r h).0)))

    Retried-IsGuarded :
        (cls : JobClass W) (b' : Broker W)
        → Retried env now row cls b b'
        → IsGuarded (replace held i none) b'
    Retried-IsGuarded cls b' (lt, e, le) =
        change-IsGuarded (replace held i none) b b' (free-IsGuarded held b i g)
          (rw e (
            below-weaken b.ids_used b'.ids_used _ le (
              cc (
                below-update b.ids_used row.id (release_at (now + delay_of env cls row * 1000))
                    b.jobs (λ q. refl),
                g.table,
              ))))
          le
          (λ k r h.
            let (s, d) = others_hold k r h in
            cc (
              kept-update_other r.id row.id (release_at (now + delay_of env cls row * 1000)) b.jobs
                  (λ q. refl) d,
              e,
              g.reserved k r s,
            ))

    Unmade-IsGuarded :
        (cls : JobClass W) (b' : Broker W) → Unmade cls b b' → IsGuarded (replace held i none) b'
    Unmade-IsGuarded cls b' (error, thrown, e, le) =
        change-IsGuarded (replace held i none) b b' (free-IsGuarded held b i g)
          (rw e (below-weaken b.ids_used b'.ids_used _ le g.table)) le
          (λ k r h. rw e (g.reserved k r (others_hold k r h).0))

    pub perform-IsGuarded : IsGuarded (replace held i none) (perform env now row b).1
    perform-IsGuarded = elim (perform-cases env now row b) [
      | inl (e, s) ↦ Ended-IsGuarded _ e
      | inr (cls, s, inl e) ↦ Ended-IsGuarded _ e
      | inr (cls, s, inr (inl e)) ↦ Retried-IsGuarded cls _ e
      | inr (cls, s, inr (inr e)) ↦ Unmade-IsGuarded cls _ e
    ]

  pub add-IsGuarded :
      (held : ℕ → Option JobRow) (b : Broker W) (q : QueueRow)
      → IsGuarded held b
      → q.job.id ≡ b.ids_used
      → IsGuarded held (record b { jobs = b.jobs ++ q ∷ []; ids_used = suc b.ids_used })
  add-IsGuarded held b q g e =
      change-IsGuarded held b _ g
        (ground (
          arith,
          below-append (suc b.ids_used) b.jobs (q ∷ []),
          below-weaken b.ids_used (suc b.ids_used) b.jobs (omega arith) g.table,
          e,
        ))
        (omega arith)
        (λ k r h.
          ground (arith, kept-append r.id b.jobs (q ∷ []), g.reserved k r h, g.issued k r h, e))
