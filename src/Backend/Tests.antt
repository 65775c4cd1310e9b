-- ===== src/Backend/Tests.antt =====
-- Concrete graphs of backends: 1 is the parent of 2 and 3, and 2 of 3.
use frozen.Base.{
  ◌≤◌, Result, ok, err, fault, enomem, ◌≢◌, ap, subst, sym, if◌then◌else◌, ℕ, ◌+◌, ◌-◌, ◌<◌, ◌≡◌,
  refl, true, false, Option, none, some, List, [], ◌∷◌, arith, ◌==◌, if◌then◌else◌,
}
use frozen.ItemList.{
  list_iter_next, free_item, list_add, list_is_empty, list_delete, list_pop, list_init, list_count,
  list_flatten,
}
use frozen.ItemList.View.{view}
use frozen.Backend.{
  backend_ref_inc, Graph, backend_new_skeleton, backend_connect, backend_disconnect,
  backend_destroy,
}
use frozen.Backend.Registry.{backend_acquire}
use frozen.Backend.Upto.{IsRanked, IsLess, IsClosed}
use frozen.Backend.Edges.{Keeps}
use frozen.Backend.Connect.{backend_connect-IsLinked, backend_disconnect-IsLinked}
use frozen.Backend.Destroy.{backend_destroy-IsLinked}
use frozen.Backend.Linked.{child_links, hit_at, IsLinked}
use frozen.Hash.{HashRef, Data, ref, item, end, null}
use frozen.Backend.Request.{Api, backend_query, backend_pass}
use frozen.Backend.Answers.{Returns, backend_query-Returns}
use frozen.Backend.Broadcast.{replies, last_error, backend_pass-last_error}
use frozen.Backend.Reach.{
  empty_graph, Call, Calls, no_call, one_more, new_skeleton, connect, acquire, release,
  Calls-IsLinked,
}

abbrev result_of : Option Graph → Graph
result_of r = elim r [ none ↦ empty_graph | some g ↦ g ]

unfoldable pub new_1 : Graph
unfolding backend_new_skeleton
new_1 = result_of (backend_new_skeleton free_item 1 (some (97 ∷ [])) empty_graph)

unfoldable pub new_2 : Graph
unfolding backend_new_skeleton new_1
new_2 = result_of (backend_new_skeleton free_item 2 none new_1)

unfoldable pub new_3 : Graph
unfolding backend_new_skeleton new_2
new_3 = result_of (backend_new_skeleton free_item 3 none new_2)

unfoldable pub linked_12 : Graph
unfolding backend_connect new_3
linked_12 = result_of (backend_connect free_item 1 (some 2) new_3)

unfoldable linked_123 : Graph
unfolding backend_connect linked_12
linked_123 = result_of (backend_connect free_item 2 (some 3) linked_12)

step_1 : Call free_item empty_graph new_1
unfolding new_1 empty_graph backend_new_skeleton backend_connect backend_destroy list_add
    list_is_empty list_delete list_pop
step_1 = new_skeleton 1 (some (97 ∷ [])) refl refl

step_2 : Call free_item new_1 new_2
unfolding new_2 empty_graph backend_new_skeleton backend_connect backend_destroy list_add
    list_is_empty list_delete list_pop
step_2 = new_skeleton 2 none refl refl

step_3 : Call free_item new_2 new_3
unfolding new_3 empty_graph backend_new_skeleton backend_connect backend_destroy list_add
    list_is_empty list_delete list_pop
step_3 = new_skeleton 3 none refl refl

step_4 : Call free_item new_3 linked_12
unfolding linked_12 empty_graph backend_new_skeleton backend_connect backend_destroy list_add
    list_is_empty list_delete list_pop
step_4 = connect 1 2 refl refl refl refl

step_5 : Call free_item linked_12 linked_123
unfolding linked_123 empty_graph backend_new_skeleton backend_connect backend_destroy list_add
    list_is_empty list_delete list_pop
step_5 = connect 2 3 refl refl refl refl

-- Backend 1 is acquired by its name, and let go.
unfoldable acquired_1 : Graph
unfolding backend_ref_inc linked_123
acquired_1 = result_of (backend_ref_inc 1 linked_123)

unfoldable released_1 : Graph
unfolding backend_destroy acquired_1
released_1 = result_of (backend_destroy free_item 1 1 acquired_1)

step_6 : Call free_item linked_123 acquired_1
unfolding acquired_1 linked_123 empty_graph backend_new_skeleton backend_connect backend_destroy
    list_add list_is_empty list_delete list_pop backend_acquire backend_ref_inc list_iter_next
step_6 = acquire 5 (some (97 ∷ [])) (some 1) refl

step_7 : Call free_item acquired_1 released_1
unfolding released_1 empty_graph backend_new_skeleton backend_connect backend_destroy list_add
    list_is_empty list_delete list_pop backend_ref_inc
step_7 = release 0 1 refl (omega arith) (omega arith) refl

steps_4 : Calls free_item empty_graph linked_12
steps_4 = one_more (one_more (one_more (one_more no_call step_1) step_2) step_3) step_4

steps_5 : Calls free_item empty_graph linked_123
steps_5 = one_more steps_4 step_5

Calls-IsLinked_example : IsLinked released_1
Calls-IsLinked_example =
    Calls-IsLinked free_item released_1 (one_more (one_more steps_5 step_6) step_7)

pub linked_12-IsLinked : IsLinked linked_12
linked_12-IsLinked = Calls-IsLinked free_item linked_12 steps_4

abbrev rank_12 : ℕ → ℕ
rank_12 x = if x == 1 then 1 else 0

linked_12-IsRanked : IsRanked rank_12 1 2 linked_12
unfolding linked_12 empty_graph backend_new_skeleton backend_connect backend_destroy list_add
    list_is_empty list_delete list_pop list_init
linked_12-IsRanked = record {
  ranked = λ x y h. ground arith;
  one_ref = λ x alive below. ground arith;
  short_childs = λ x. ground arith;
  short_parents = λ x. ground arith;
}

childs_of : ℕ → Option Graph → List ℕ
childs_of b r = elim r [ none ↦ [] | some g ↦ view (g.childs b) ]

test1 : childs_of 1 (some linked_123) ≡ 2 ∷ []
unfolding childs_of linked_123 empty_graph backend_new_skeleton backend_connect backend_destroy
    list_add list_is_empty list_delete list_pop
test1 = refl

pub live_1 : linked_12.live 1 ≡ true
unfolding linked_12 empty_graph backend_new_skeleton backend_connect list_add list_is_empty
    list_delete list_init
live_1 = refl

pub live_2 : linked_12.live 2 ≡ true
unfolding linked_12 empty_graph backend_new_skeleton backend_connect list_add list_is_empty
    list_delete list_init
live_2 = refl

pub live_3 : linked_12.live 3 ≡ true
unfolding linked_12 empty_graph backend_new_skeleton backend_connect list_add list_is_empty
    list_delete list_init
live_3 = refl

fresh_23 : child_links linked_12 2 3 ≡ 0
unfolding linked_12 empty_graph backend_new_skeleton backend_connect list_add list_is_empty
    list_delete list_init
fresh_23 = refl

backend_destroy-IsLinked_example :
    (g' : Graph) × (backend_destroy free_item 6 1 linked_12 ≡ some g')
    × IsLinked g'
    × IsLess linked_12 g'
    × IsClosed linked_12 g'
    × (g'.live 1 ≡ false)
    × ((x : ℕ) → rank_12 1 < rank_12 x → g'.live x ≡ linked_12.live x)
backend_destroy-IsLinked_example =
    backend_destroy-IsLinked free_item rank_12 1 6 1 linked_12 linked_12-IsLinked linked_12-IsRanked
      live_1 (omega arith)

backend_connect-IsLinked_example :
    (g' : Graph) × (backend_connect free_item 2 (some 3) linked_12 ≡ some g')
    × IsLinked g'
    × Keeps linked_12 g'
    × ((x y : ℕ) → child_links g' x y ≡ child_links linked_12 x y + hit_at 2 3 x y)
backend_connect-IsLinked_example =
    backend_connect-IsLinked free_item 2 3 linked_12 linked_12-IsLinked live_2 live_3 fresh_23

backend_disconnect-IsLinked_example :
    (g' : Graph) × (backend_disconnect free_item 1 (some 2) linked_12 ≡ some g')
    × IsLinked g'
    × Keeps linked_12 g'
    × ((x y : ℕ) → child_links g' x y ≡ child_links linked_12 x y - hit_at 1 2 x y)
backend_disconnect-IsLinked_example =
    backend_disconnect-IsLinked free_item 1 2 linked_12 linked_12-IsLinked live_1 live_2

-- Backend 1 has no handler and passes a request on; 2 has one that fails.
abbrev sample_api : ℕ → Api ℕ
sample_api b = record {
  api_hash = true;
  api_crwd = false;
  func_handler = if b == 2 then some 7 else none;
  func_create = none;
  func_set = none;
  func_get = none;
  func_delete = none;
  func_move = none;
  func_count = none;
  func_custom = none;
}

-- The handlers count their calls in the memory, a number.
abbrev sample_call : ℕ → ℕ → HashRef → ℕ → Result ℕ × ℕ
sample_call f b request m = (err enomem, m + f)

abbrev sample_get : Data → ℕ → Option ℕ
sample_get d m = some d.ptr

abbrev sample_transfer : Result ℕ → Option Data → ℕ → ℕ
sample_transfer r d m = m + 100

abbrev sample_request : HashRef
sample_request = ref (item 5 (record { type = 0; ptr = 0 }) (end null))

abbrev sample_query : ℕ → ℕ → ℕ → Option (Result ℕ × ℕ)
sample_query =
    backend_query linked_12 sample_api 4 5 sample_call sample_get sample_transfer sample_request

test_query : sample_query 2 1 0 ≡ some (ok 0, 107)
unfolding backend_query linked_12 empty_graph backend_new_skeleton backend_connect list_add
    list_is_empty list_delete list_init list_count list_flatten
test_query = refl

no_fault : (f x m : ℕ) → (sample_call f x sample_request m).0 ≢ fault
no_fault f x m e = absurd (cc e)

linked_12-ranked : (x y : ℕ) → 1 ≤ child_links linked_12 x y → rank_12 y < rank_12 x
linked_12-ranked x y link =
    linked_12-IsRanked.ranked x y (omega (arith, link, linked_12-IsLinked.dual x y))

backend_query-Returns_example : Returns (sample_query 2 1 0)
backend_query-Returns_example =
    backend_query-Returns linked_12 sample_api 4 5 sample_call sample_get sample_transfer rank_12
      sample_request 2 1 linked_12-IsLinked linked_12-ranked no_fault live_1 (omega arith) 0

-- The reply of backend 2.
abbrev sample_reply : ℕ → ℕ → Result ℕ × ℕ
sample_reply x m = (ok 0, m + 107)

link_12 : 1 ≤ child_links linked_12 1 2
unfolding linked_12 empty_graph backend_new_skeleton backend_connect list_add list_is_empty
    list_delete list_init
link_12 = omega arith

only_2 : (x : ℕ) → 1 ≤ child_links linked_12 1 x → x ≡ 2
unfolding linked_12 empty_graph backend_new_skeleton backend_connect list_add list_is_empty
    list_delete list_init
only_2 x link = ground arith

reply_2 : (m : ℕ) → sample_query 1 2 m ≡ some (sample_reply 2 m)
unfolding backend_query linked_12 empty_graph backend_new_skeleton backend_connect list_add
    list_is_empty list_delete list_init list_count list_flatten
reply_2 m = let e : m + 7 + 100 ≡ m + 107 = omega arith in ap (λ t. some (ok 0, t)) e

sample_replies :
    (x : ℕ) → 1 ≤ child_links linked_12 1 x → (m : ℕ) → sample_query 1 x m ≡ some (sample_reply x m)
sample_replies x link m =
    subst (λ t. sample_query 1 t m ≡ some (sample_reply t m)) (sym (only_2 x link)) (reply_2 m)

calm : (x m : ℕ) → (sample_reply x m).0 ≢ fault
calm x m e = absurd (cc e)

backend_pass-last_error_example :
    let (rs, m') = replies sample_reply (view (linked_12.childs 1)) 0 in
    backend_pass linked_12 sample_api 4 5 sample_call sample_get sample_transfer sample_request 1 1
      0
    ≡ some (last_error (ok 0) rs, m')
backend_pass-last_error_example =
    backend_pass-last_error linked_12 sample_api 4 5 sample_call sample_get sample_transfer
      sample_request 1 1 2 sample_reply linked_12-IsLinked live_1 link_12 sample_replies calm 0
