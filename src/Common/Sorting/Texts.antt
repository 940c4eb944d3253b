-- ===== src/Common/Sorting/Texts.antt =====
-- The orders by text: `sort.Strings`, and a sort by a key that is a text.
use mathlib.Core.Bool.{true, false}
use mathlib.Core.Path.{◌≡◌}
use Prim.Native.String.{String}
use native.Mathlib.Omega.{arith}
use cluster_openshift_contro.Common.Text.{
  less_text, less_text_irrefl, less_text_trans, less_text_total,
}
use cluster_openshift_contro.Common.Sorting.Laws.{IsOrder}

pub less_text-neg_trans :
    (s t u : String) → less_text t s ≡ false → less_text u t ≡ false → less_text u s ≡ false
less_text-neg_trans s t u h k = grind (arith, less_text_total t u, less_text_trans t u s)

pub less_text-asym : (s t : String) → less_text s t ≡ true → less_text t s ≡ false
less_text-asym s t h = ground (arith, less_text_trans s t s, less_text_irrefl s)

pub less_text-IsOrder : IsOrder less_text
less_text-IsOrder = record {
  irrefl = less_text_irrefl;
  asym = less_text-asym;
  neg_trans = less_text-neg_trans;
}

pub less_by_key-IsOrder {ℓ} :
    {A : Type ℓ} (key : A → String) → IsOrder (λ x y. less_text (key x) (key y))
less_by_key-IsOrder key = record {
  irrefl = λ x. less_text_irrefl (key x);
  asym = λ x y. less_text-asym (key x) (key y);
  neg_trans = λ x y z. less_text-neg_trans (key x) (key y) (key z);
}
