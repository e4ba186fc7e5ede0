-- ===== src/Lineage/Cleanup.antt =====
-- A child that is cleaned up leaves its parent as it was (stopper.go).
use go_stopper.Prelude.{ℕ, ◌≡◌, refl, ap, false, List, [], ◌∷◌, some, ◌==◌, arith}
use go_stopper.State.{State, Hook, add_stop_hook, cancel_stop_hook, put_hook, delete_hook}
use go_stopper.Errors.{Sentinel}
use go_stopper.Lineage.{Family, put_child, delete_child, join_family, cleanup}

abbrev pub NoHook : ℕ → List Hook → Type 0
NoHook c [] = Unit
NoHook c (k ∷ ks) = ((k.child == c) ≡ false) × NoHook c ks

abbrev pub NoChild : ℕ → List ℕ → Type 0
NoChild g [] = Unit
NoChild g (k ∷ ks) = ((k == g) ≡ false) × NoChild g ks

delete_hook-put_hook :
    (h : Hook) (hs : List Hook) → NoHook h.child hs → delete_hook h.child (put_hook h hs) ≡ hs
delete_hook-put_hook h [] n = ground arith
delete_hook-put_hook h (k ∷ ks) (p, n) = rw p (rw p (ap (λ l. k ∷ l) (delete_hook-put_hook h ks n)))

delete_child-put_child : (g : ℕ) (ks : List ℕ) → NoChild g ks → delete_child g (put_child g ks) ≡ ks
delete_child-put_child g [] n = ground arith
delete_child-put_child g (k ∷ ks) (p, n) =
    rw p (rw p (ap (λ l. k ∷ l) (delete_child-put_child g ks n)))

hook_taken_back :
    (h : Hook) (s : State)
    → s.stopping ≡ false
    → s.closes ≡ 0
    → NoHook h.child s.stop_hooks
    → cancel_stop_hook h.child (add_stop_hook h s).0 ≡ s
unfolding add_stop_hook cancel_stop_hook
hook_taken_back h s t c n = ground (arith, delete_hook-put_hook h s.stop_hooks n)

-- The clean-up of a child, right after newContext made it, gives the parent back its state and the
-- children of its group, if the parent is not stopping and did not know the child. The child's
-- context is canceled with the cause, nothing is left armed and the trace is ended.
pub cleanup-join_family :
    (h : Hook) (g : ℕ) (err : Sentinel) (f : Family)
    → f.parent.stopping ≡ false
    → f.parent.closes ≡ 0
    → NoHook h.child f.parent.stop_hooks
    → NoChild g f.children
    → cleanup h.child g err (join_family h g f).0 ≡ record {
      parent = f.parent;
      children = f.children;
      after_armed = false;
      cause = some err;
      trace_open = false;
    }
unfolding cleanup join_family
cleanup-join_family h g err f s c n m =
    let kept = delete_child-put_child g f.children m in
    rw (hook_taken_back h f.parent s c n, kept) refl
