-- ===== src/Observe/Controllers/Order.antt =====
-- The sort of the controllers: `Less` is an order, and the sort cannot panic on names that are not
-- empty.
use cluster_openshift_contro.Common.{String, List, false, ◌≡◌, arith, some, any, is_empty}
use cluster_openshift_contro.Common.Sorting.{sort, IsOrder, less_by_key-IsOrder}
use cluster_openshift_contro.Observe.Controllers.{less, without_dash, controllers_sort}

pub less-IsOrder : IsOrder less
unfolding less
less-IsOrder = less_by_key-IsOrder without_dash

pub controllers_sort-some :
    (cs : List String) → any is_empty cs ≡ false → controllers_sort cs ≡ some (sort less cs)
unfolding controllers_sort
controllers_sort-some cs h = ground arith
