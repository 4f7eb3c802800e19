-- ===== src/Status/Classify.antt =====
-- The taxonomy of classifyErr (gazetteer/gazetteer.go).
use gazetteer.Prelude.{ℕ, zero, suc, ◌≡◌, refl, ap, ◌∙◌, false, arith, if◌then◌else◌, leb}
use gazetteer.Errors.{Node, Err, leaf, wrap, join, any_node}
use gazetteer.Status.{Status, classify_err, is_success}

-- How strong a status is: of several sentinels in one error the strongest decides.
abbrev pub rank : Status → ℕ
rank Status.skipped_prereq = 4
rank Status.failed_antibot = 3
rank Status.failed_outdated = 2
rank Status.failed_permanent = 1
rank _ = 0

abbrev pub rank_of_node : Node → ℕ
rank_of_node Node.insufficient_inputs = 4
rank_of_node Node.unsupported_property_type = 4
rank_of_node Node.anti_bot = 3
rank_of_node Node.upstream_schema_changed = 2
rank_of_node Node.upstream_permanent = 1
rank_of_node _ = 0

abbrev pub greater : ℕ → ℕ → ℕ
greater a b = if leb a b then b else a

-- The strongest sentinel of the tree.
abbrev pub rank_of_err : Err → ℕ
rank_of_err (leaf n) = rank_of_node n
rank_of_err (wrap n e) = greater (rank_of_node n) (rank_of_err e)
rank_of_err (join n d e) = greater (rank_of_node n) (greater (rank_of_err d) (rank_of_err e))

leaf-rank : (n : Node) → rank (classify_err (leaf n)) ≡ rank_of_node n
unfolding classify_err any_node
leaf-rank (Node.text s) = refl
leaf-rank _ = refl

wrap-rank :
    (n : Node) (e : Err)
    → rank (classify_err (wrap n e))
      ≡ greater (rank (classify_err (leaf n))) (rank (classify_err e))
unfolding classify_err any_node
wrap-rank n e = ground arith

join-rank :
    (n : Node) (d e : Err)
    → rank (classify_err (join n d e))
      ≡ greater
          (rank (classify_err (leaf n)))
          (greater (rank (classify_err d)) (rank (classify_err e)))
unfolding classify_err any_node
join-rank n d e = ground arith

rank-classify_err : (e : Err) → rank (classify_err e) ≡ rank_of_err e
rank-classify_err (leaf n) = leaf-rank n
rank-classify_err (wrap n e) = ground (arith, wrap-rank n e, leaf-rank n, rank-classify_err e)
rank-classify_err (join n d e) =
    ground (arith, join-rank n d e, leaf-rank n, rank-classify_err d, rank-classify_err e)

abbrev pub of_rank : ℕ → Status
of_rank zero = Status.failed_transient
of_rank (suc zero) = Status.failed_permanent
of_rank (suc (suc zero)) = Status.failed_outdated
of_rank (suc (suc (suc zero))) = Status.failed_antibot
of_rank _ = Status.skipped_prereq

classify_err-of_rank : (e : Err) → classify_err e ≡ of_rank (rank (classify_err e))
unfolding classify_err
classify_err-of_rank e = ground arith

-- The status of an error is that of its strongest sentinel, wherever in the tree it stands, in
-- the order skipped, anti-bot, outdated, permanent; an error with none of these is transient.
pub classify_err-eq-strongest : (e : Err) → classify_err e ≡ of_rank (rank_of_err e)
classify_err-eq-strongest e = classify_err-of_rank e ∙ ap of_rank (rank-classify_err e)

-- An error is never classified as a success.
pub not-is_success-classify_err : (e : Err) → is_success (classify_err e) ≡ false
unfolding classify_err
not-is_success-classify_err e = ground arith
