-- ===== src/Streams/Runs.antt =====
-- The regions of `compile_stream_graph` against a description of them that has no loop variables.
use torch_mojo_backend.Prelude.{
  ℕ, suc, Bool, true, false, not, ◌&&◌, Option, none, some, List, [], ◌∷◌, ◌++◌, map, if◌then◌else◌,
  keep, replicate, all, append_assoc, append-nil, ◌≡◌, refl, ap, sym, ◌∙◌, inl, inr, Bool-cases,
  arith,
}
use torch_mojo_backend.Streams.{
  Node, Key, Numbering, computes, key_of, same_key, is_previous, place, visit_all, number_regions,
  is_training,
}
use torch_mojo_backend.Streams.Keys.{
  same_key-eq, region_at, numbers_below, put-fresh, put-same, region_at-last, numbers_below-last,
}

-- A region as the nodes of a graph show it: their key and their number.
pub record Run : Type 0 where
  pub key : Key
  pub size : ℕ

-- Whether a node joins the region of the node behind it: orchestration stays alone.
abbrev pub joins : Key → Key → Bool
joins k next = not k.control && same_key next k

abbrev pub prepend : Key → List Run → List Run
prepend k [] = record { key = k; size = 1 } ∷ []
prepend k (r ∷ rs) =
    if joins k r.key
    then record { key = r.key; size = suc r.size } ∷ rs
    else record { key = k; size = 1 } ∷ r ∷ rs

-- The maximal runs of equal keys, in which an orchestration node is a run of its own.
unfoldable pub runs : List Key → List Run
unfolding same_key
runs [] = []
runs (k ∷ ks) = prepend k (runs ks)

-- The number of its run for every node, and the key of every run.
unfoldable pub labels : ℕ → List Run → List ℕ
labels i [] = []
labels i (r ∷ rs) = replicate r.size i ++ labels (suc i) rs

unfoldable pub table : ℕ → List Run → List (ℕ × Key)
table i [] = []
table i (r ∷ rs) = (i, r.key) ∷ table (suc i) rs

-- The same for nodes that follow one with key `p` in region `i`.
labels_after : Key → ℕ → List Run → List ℕ
unfolding labels
labels_after p i [] = []
labels_after p i (r ∷ rs) =
    if same_key r.key p then replicate r.size i ++ labels (suc i) rs else labels (suc i) (r ∷ rs)

table_after : Key → ℕ → List Run → List (ℕ × Key)
unfolding table
table_after p i [] = []
table_after p i (r ∷ rs) = if same_key r.key p then table (suc i) rs else table (suc i) (r ∷ rs)

place_all : List Key → Numbering → Numbering
place_all [] s = s
place_all (k ∷ ks) s = place_all ks (place k s)

abbrev state : ℕ → Option Key → List ℕ → List (ℕ × Key) → Numbering
state count previous partitions regions = record {
  count = count;
  previous = previous;
  partitions = partitions;
  regions = regions;
}

place-control :
    (k : Key) (n : ℕ) (p : Option Key) (parts : List ℕ) (regions : List (ℕ × Key))
    → k.control ≡ true
    → numbers_below n regions ≡ true
    → place k (state n p parts regions)
      ≡ state (suc n) none (parts ++ (n ∷ [])) (regions ++ ((n, k) ∷ []))
unfolding place
place-control k n p parts regions c b = ground (arith, c, put-fresh n k regions b)

place-fresh :
    (k : Key) (n : ℕ) (p : Option Key) (parts : List ℕ) (regions : List (ℕ × Key))
    → k.control ≡ false
    → is_previous k p ≡ false
    → numbers_below n regions ≡ true
    → place k (state n p parts regions)
      ≡ state (suc n) (some k) (parts ++ (n ∷ [])) (regions ++ ((n, k) ∷ []))
unfolding place
place-fresh k n p parts regions c f b = ground (arith, c, f, put-fresh n k regions b)

place-same :
    (k p : Key) (i : ℕ) (parts : List ℕ) (regions : List (ℕ × Key))
    → k.control ≡ false
    → same_key k p ≡ true
    → region_at i regions ≡ some k
    → place k (state (suc i) (some p) parts regions)
      ≡ state (suc i) (some k) (parts ++ (i ∷ [])) regions
unfolding place
place-same k p i parts regions c f b = ground (arith, c, f, put-same i k regions b)

-- What a number of nodes adds to the two tables.
record Adds (s t : Numbering) (new_labels : List ℕ) (new_table : List (ℕ × Key)) : Type 0 where
  partitions_eq : t.partitions ≡ s.partitions ++ new_labels
  regions_eq : t.regions ≡ s.regions ++ new_table

module _ {n m : ℕ} {p q : Option Key} (parts : List ℕ) (regions : List (ℕ × Key)) (i : ℕ) (k : Key)
    (t : Numbering) (ls : List ℕ) (ts : List (ℕ × Key)) where
  Adds-fresh :
      Adds (state m q (parts ++ (i ∷ [])) (regions ++ ((i, k) ∷ []))) t ls ts
      → Adds (state n p parts regions) t (i ∷ ls) ((i, k) ∷ ts)
  Adds-fresh a = record {
    partitions_eq = a.partitions_eq ∙ append_assoc parts (i ∷ []) ls;
    regions_eq = a.regions_eq ∙ append_assoc regions ((i, k) ∷ []) ts;
  }

  Adds-same :
      Adds (state m q (parts ++ (i ∷ [])) regions) t ls ts
      → Adds (state n p parts regions) t (i ∷ ls) ts
  Adds-same a = record {
    partitions_eq = a.partitions_eq ∙ append_assoc parts (i ∷ []) ls;
    regions_eq = a.regions_eq;
  }

-- The run of a node that is no orchestration, with what follows it.
record Opens (k : Key) (rs : List Run) : Type 0 where
  size : ℕ
  rest : List Run
  prepend_eq : prepend k rs ≡ record { key = k; size = size } ∷ rest
  labels_eq : (i : ℕ) → replicate size i ++ labels (suc i) rest ≡ i ∷ labels_after k i rs
  table_eq : (i : ℕ) → table (suc i) rest ≡ table_after k i rs

prepend-Opens : (k : Key) (rs : List Run) → k.control ≡ false → Opens k rs
unfolding labels table labels_after table_after
prepend-Opens k [] c = record {
  size = 1;
  rest = [];
  prepend_eq = refl;
  labels_eq = λ i. refl;
  table_eq = λ i. refl;
}
prepend-Opens k (r ∷ rs) c = elim (Bool-cases (same_key r.key k)) [
  | inl e ↦ record {
    size = suc r.size;
    rest = rs;
    prepend_eq = ground (arith, c, e, same_key-eq r.key k e);
    labels_eq = λ i. ground (arith, e);
    table_eq = λ i. ground (arith, e);
  }
  | inr e ↦ record {
    size = 1;
    rest = r ∷ rs;
    prepend_eq = ground (arith, c, e);
    labels_eq = λ i. ground (arith, e);
    table_eq = λ i. ground (arith, e);
  }
]

-- The loop, from a state with no previous key, and from one behind a node with key `p`.
record Loop (ks : List Key) : Type 0 where
  from_none :
      (n : ℕ) (parts : List ℕ) (regions : List (ℕ × Key))
      → numbers_below n regions ≡ true
      → Adds
          (state n none parts regions)
          (place_all ks (state n none parts regions))
          (labels n (runs ks))
          (table n (runs ks))
  from_key :
      (p : Key) (i : ℕ) (parts : List ℕ) (regions : List (ℕ × Key))
      → p.control ≡ false
      → numbers_below (suc i) regions ≡ true
      → region_at i regions ≡ some p
      → Adds
          (state (suc i) (some p) parts regions)
          (place_all ks (state (suc i) (some p) parts regions))
          (labels_after p i (runs ks))
          (table_after p i (runs ks))

runs-control :
    (k : Key) (ks : List Key)
    → k.control ≡ true
    → runs (k ∷ ks) ≡ record { key = k; size = 1 } ∷ runs ks
unfolding runs
runs-control k ks c = by_cases (runs ks)
  where
    by_cases : (rs : List Run) → prepend k rs ≡ record { key = k; size = 1 } ∷ rs
    by_cases [] = refl
    by_cases (r ∷ rs) = ground (arith, c)

same_key-control : (k p : Key) → k.control ≡ true → p.control ≡ false → same_key k p ≡ false
unfolding same_key
same_key-control k p c d = ground (arith, c, d)

Loop-control : (k : Key) (ks : List Key) → k.control ≡ true → Loop ks → Loop (k ∷ ks)
unfolding labels table labels_after table_after place_all
Loop-control k ks c l = record {
  from_none = λ n parts regions b.
      rw (runs-control k ks c, place-control k n none parts regions c b)
        (Adds-fresh parts regions n k _ _ _ (
          l.from_none (suc n) (parts ++ (n ∷ [])) (regions ++ ((n, k) ∷ []))
            (numbers_below-last n k regions b)));
  from_key = λ p i parts regions d b r.
      rw
        (
          runs-control k ks c,
          place-control k (suc i) (some p) parts regions c b,
          same_key-control k p c d,
        )
        (Adds-fresh parts regions (suc i) k _ _ _ (
          l.from_none (suc (suc i)) (parts ++ (suc i ∷ [])) (regions ++ ((suc i, k) ∷ []))
            (numbers_below-last (suc i) k regions b)));
}

Loop-other : (k : Key) (ks : List Key) → k.control ≡ false → Loop ks → Loop (k ∷ ks)
unfolding labels table labels_after table_after place_all runs
Loop-other k ks c l =
    let o = prepend-Opens k (runs ks) c in
    let fresh =
      λ (n : ℕ) (p : Option Key) (parts : List ℕ) (regions : List (ℕ × Key))
          (f : is_previous k p ≡ false) (b : numbers_below n regions ≡ true).
        l.from_key k n (parts ++ (n ∷ [])) (regions ++ ((n, k) ∷ [])) c
          (numbers_below-last n k regions b) (region_at-last n k regions b) in
    record {
      from_none = λ n parts regions b.
          rw
            (o.prepend_eq, o.labels_eq n, o.table_eq n, place-fresh k n none parts regions c refl b)
            (Adds-fresh parts regions n k _ _ _ (fresh n none parts regions refl b));
      from_key = λ p i parts regions d b r. elim (Bool-cases (same_key k p)) [
        | inl e ↦
            rw
              (
                o.prepend_eq,
                e,
                o.labels_eq i,
                o.table_eq i,
                place-same k p i parts regions c e (r ∙ ap some (sym (same_key-eq k p e))),
              )
              (Adds-same parts regions i k _ _ _ (
                l.from_key k i (parts ++ (i ∷ [])) regions c b
                  (r ∙ ap some (sym (same_key-eq k p e)))))
        | inr e ↦
            rw
              (
                o.prepend_eq,
                e,
                o.labels_eq (suc i),
                o.table_eq (suc i),
                place-fresh k (suc i) (some p) parts regions c e b,
              )
              (Adds-fresh parts regions (suc i) k _ _ _ (fresh (suc i) (some p) parts regions e b))
      ];
    }

loop_lem : (ks : List Key) → Loop ks
unfolding runs labels table labels_after table_after place_all
loop_lem [] = record {
  from_none = λ n parts regions b. record {
    partitions_eq = sym (append-nil parts);
    regions_eq = sym (append-nil regions);
  };
  from_key = λ p i parts regions c b r. record {
    partitions_eq = sym (append-nil parts);
    regions_eq = sym (append-nil regions);
  };
}
loop_lem (k ∷ ks) = elim (Bool-cases k.control) [
  | inl c ↦ Loop-control k ks c (loop_lem ks)
  | inr c ↦ Loop-other k ks c (loop_lem ks)
]

-- The keys of the nodes that a graph computes.
unfoldable pub keys_of : List Node → List Key
unfolding key_of is_training
keys_of nodes = map (key_of (is_training nodes)) (keep (λ n. computes n.op) nodes)

visit_all-place_all :
    (training : Bool) (nodes : List Node) (s : Numbering)
    → visit_all training nodes s
      ≡ place_all (map (key_of training) (keep (λ n. computes n.op) nodes)) s
unfolding visit_all place_all
visit_all-place_all training [] s = refl
visit_all-place_all training (n ∷ nodes) s = elim (Bool-cases (computes n.op)) [
  | inl e ↦ rw e (visit_all-place_all training nodes (place (key_of training n) s))
  | inr e ↦ rw e (visit_all-place_all training nodes s)
]

-- The regions of a graph are the maximal runs of computed nodes with one key, in the graph's order,
-- where an orchestration node is a region of its own: every computed node has the number of its run,
-- and the table of regions has every run's key under that number.
pub number_regions-runs :
    (nodes : List Node)
    → ((number_regions nodes).partitions ≡ labels 0 (runs (keys_of nodes)))
      × ((number_regions nodes).regions ≡ table 0 (runs (keys_of nodes)))
unfolding number_regions keys_of all
number_regions-runs nodes =
    rw (visit_all-place_all (is_training nodes) nodes (state 0 none [] []))
      (let a = (loop_lem (keys_of nodes)).from_none 0 [] [] refl in (a.partitions_eq, a.regions_eq))
