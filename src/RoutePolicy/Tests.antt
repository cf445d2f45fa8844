-- ===== src/RoutePolicy/Tests.antt =====
-- nabla/route_policy.py: the classification on concrete routes.
use fastapi_sample.Prelude.{◌≡◌, refl, Memᴰ, ◌⊎◌, upper}
use fastapi_sample.RoutePolicy.{
  public_policy, review_policy, within, prefix_policy, exact_policy, http_route_policy,
  route_policy_for,
}
use fastapi_sample.RoutePolicy.Protected.{
  IsProtected, private_route-IsProtected, IsPublicRead, IsSessionCall, public_route-Mem,
}

a_read : route_policy_for "/livez" "get" "http" ≡ public_policy
unfolding route_policy_for http_route_policy exact_policy prefix_policy within upper
a_read = refl

a_sibling : route_policy_for "/administrator" "GET" "http" ≡ review_policy
unfolding route_policy_for http_route_policy exact_policy prefix_policy within upper
a_sibling = refl

private_route-IsProtected_example : IsProtected (route_policy_for "/admin/users" "DELETE" "http")
unfolding within
private_route-IsProtected_example =
    private_route-IsProtected "/admin/users" "DELETE" "/admin"
      (Memᴰ.tail (Memᴰ.tail (Memᴰ.head refl))) refl

public_route-Mem_example :
    IsPublicRead "/livez" (upper "get") ⊎ IsSessionCall "/livez" (upper "get")
unfolding route_policy_for http_route_policy exact_policy prefix_policy within upper
public_route-Mem_example = public_route-Mem "/livez" "get" refl
