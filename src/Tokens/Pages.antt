-- ===== src/Tokens/Pages.antt =====
-- The pages of a resource are replayed as one list (compute.ts).
use reputo.Prelude.{
  ℕ, zero, suc, ◌+◌, ◌≤◌, ◌<◌, String, ◌≡◌, refl, true, false, some, List, [], ◌∷◌, ◌++◌, length,
  append-nil, arith, ap, ◌∙◌, length-append,
}
use reputo.Tokens.Transfers.{
  OrderedTransferEvent, WalletLotsState, ReplayStats, no_stats, apply_transfer, replay_loop,
  replay_transfers, TransferPage, Totals, add_stats, add_page, replay_pages,
}

loop-append :
    (targets : List String) (xs ys : List OrderedTransferEvent) (s : WalletLotsState × ReplayStats)
    → replay_loop targets (xs ++ ys) s ≡ replay_loop targets ys (replay_loop targets xs s)
loop-append targets [] ys s = refl
loop-append targets (x ∷ xs) ys s = loop-append targets xs ys (apply_transfer targets x s)

add_stats_assoc : (a b c : ReplayStats) → add_stats (add_stats a b) c ≡ add_stats a (add_stats b c)
add_stats_assoc a b c = ground arith

apply-add_stats :
    (targets : List String) (transfer : OrderedTransferEvent) (state : WalletLotsState)
    (a b : ReplayStats)
    → let after = apply_transfer targets transfer (state, b) in
      apply_transfer targets transfer (state, add_stats a b) ≡ (after.0, add_stats a after.1)
unfolding apply_transfer
apply-add_stats targets transfer state a b = ground arith

loop-add_stats :
    (targets : List String) (transfers : List OrderedTransferEvent) (state : WalletLotsState)
    (a b : ReplayStats)
    → let after = replay_loop targets transfers (state, b) in
      replay_loop targets transfers (state, add_stats a b) ≡ (after.0, add_stats a after.1)
loop-add_stats targets [] state a b = refl
loop-add_stats targets (x ∷ xs) state a b =
    let (state', b') = apply_transfer targets x (state, b) in
    rw (apply-add_stats targets x state a b) (loop-add_stats targets xs state' a b')

-- a page of given items
abbrev pub page_of : List OrderedTransferEvent → TransferPage
page_of items = record { items = items; has_more = false }

add_page-append :
    (targets : List String) (xs ys : List OrderedTransferEvent) (t : Totals)
    → add_page targets (page_of (xs ++ ys)) t
      ≡ add_page targets (page_of ys) (add_page targets (page_of xs) t)
unfolding add_page replay_transfers
add_page-append targets xs ys t =
    let first = replay_loop targets xs (t.lots, no_stats) in
    let second = replay_loop targets ys (first.0, no_stats) in
    let zero_right : first.1 ≡ add_stats first.1 no_stats = ground arith in
    let e : replay_loop targets (xs ++ ys) (t.lots, no_stats)
        ≡ (second.0, add_stats first.1 second.1) =
      loop-append targets xs ys (t.lots, no_stats)
      ∙ ap (λ b. replay_loop targets ys (first.0, b)) zero_right
      ∙ loop-add_stats targets ys first.0 first.1 no_stats in
    rw (e, length-append xs ys) (ground arith)

abbrev pub all_items : List TransferPage → List OrderedTransferEvent
all_items [] = []
all_items (page ∷ pages) = page.items ++ all_items pages

-- What is loaded from a page number on: pages that have items and are followed by more, and a last
-- one that is not.
abbrev pub IsListing : (ℕ → TransferPage) → ℕ → List TransferPage → Type 0
IsListing load n [] = ⊥
IsListing load n (page ∷ []) = (load n ≡ page) × (page.has_more ≡ false)
IsListing load n (page ∷ next ∷ pages) =
    (load n ≡ page)
    × (page.has_more ≡ true)
    × (0 < length page.items)
    × IsListing load (n + 1) (next ∷ pages)

-- The loop over the pages of a resource ends after the last page, and its totals are those of one
-- replay of all the items of the pages, in their order.
pub replay_pages-all_items :
    (targets : List String) (load : ℕ → TransferPage) (fuel n : ℕ) (pages : List TransferPage)
    (t : Totals)
    → IsListing load n pages
    → length pages ≤ fuel
    → replay_pages targets load fuel n t ≡ some (add_page targets (page_of (all_items pages)) t)
unfolding replay_pages add_page
replay_pages-all_items targets load fuel n [] t l h = absurd l
replay_pages-all_items targets load zero n (page ∷ pages) t l h = absurd (omega arith)
replay_pages-all_items targets load (suc fuel) n (page ∷ []) t (e, last) h =
    rw (e, last, append-nil page.items) (ground arith)
replay_pages-all_items targets load (suc fuel) n (page ∷ next ∷ pages) t (e, more, some_items, l)
      h =
    let rest =
      replay_pages-all_items targets load fuel (n + 1) (next ∷ pages) (add_page targets page t) l
        (omega arith) in
    rw (e, more, rest, add_page-append targets page.items (all_items (next ∷ pages)) t)
      (ground arith)
