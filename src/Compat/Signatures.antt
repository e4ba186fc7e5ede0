-- ===== src/Compat/Signatures.antt =====
-- The function signatures of version 1 (compat/adapt.go), which are the six of version 2 over the
-- Context of version 1.
use go_stopper.Prelude.{◌≡◌, refl}
use go_stopper.Adapt.{Adaptable, plain, plain_error, std, std_error, own, own_error, and_nil, fn_of}
use go_stopper.Compat.{Context, Func}

-- Fn.
unfoldable pub adapt_fn : {W X : Type 0} → Adaptable W (Context X) → Func W X
adapt_fn (plain t) = λ ctx. and_nil t
adapt_fn (std t) = λ ctx. and_nil (t ctx)
adapt_fn (plain_error t) = λ ctx. t
adapt_fn (std_error t) = λ ctx. t ctx
adapt_fn (own t) = λ ctx. and_nil (t ctx)
adapt_fn (own_error t) = t

adapt_fn-as_fn : {W X : Type 0} (fn : Adaptable W (Context X)) → adapt_fn fn ≡ fn_of fn
unfolding adapt_fn fn_of
adapt_fn-as_fn (plain t) = refl
adapt_fn-as_fn (std t) = refl
adapt_fn-as_fn (plain_error t) = refl
adapt_fn-as_fn (std_error t) = refl
adapt_fn-as_fn (own t) = refl
adapt_fn-as_fn (own_error t) = refl
