-- ===== src/Operator/Deployments/Proxies.antt =====
-- The environment of a container under a proxy configuration.
use cluster_openshift_contro.Common.{
  String, List, [], ◌∷◌, ◌++◌, Option, none, some, true, ◌≡◌, refl, arith, ◌==◌, if◌then◌else◌,
  eq_iff, Bool-cases, inl, inr, is_empty,
}
use cluster_openshift_contro.Operator.Types.{EnvVar, Container, Proxy}
use cluster_openshift_contro.Operator.Deployments.{
  trim_space, is_proxy_name, other_envs, env_if_set, proxy_envs, with_proxy,
}

-- The content of the first variable of a name.
unfoldable pub find_env : String → List EnvVar → Option String
find_env name [] = none
find_env name (e ∷ es) =
    let rest = find_env name es in if e.name == name then some e.content else rest

abbrev pub if_set : String → Option String
if_set content = if is_empty content then none else some content

abbrev or_else : Option String → Option String → Option String
or_else none y = y
or_else (some x) y = some x

-- What a proxy configuration says of a name, and what else was there.
abbrev pub configured : Proxy → String → Option String → Option String
configured proxy name original =
    if name == "HTTPS_PROXY"
    then if_set proxy.https_proxy
    else if name == "HTTP_PROXY"
    then if_set proxy.http_proxy
    else if name == "NO_PROXY"
    then if_set proxy.no_proxy
    else if is_proxy_name (trim_space name)
    then none
    else original

find_env-append :
    (name : String) (xs ys : List EnvVar)
    → find_env name (xs ++ ys) ≡ or_else (find_env name xs) (find_env name ys)
unfolding find_env
find_env-append name [] ys = refl
find_env-append name (e ∷ xs) ys = ground (arith, find_env-append name xs ys)

find_env-other_envs :
    (name : String) (es : List EnvVar)
    → find_env name (other_envs es)
      ≡ (if is_proxy_name (trim_space name) then none else find_env name es)
unfolding find_env other_envs
find_env-other_envs name [] = ground arith
find_env-other_envs name (e ∷ es) =
    let ih = find_env-other_envs name es in
    elim (Bool-cases (e.name == name)) [
      | inl same ↦ rw ((eq_iff e.name name).0 same) (ground (arith, ih, eq_iff name name))
      | inr differs ↦ ground (arith, ih)
    ]

trimmed :
    (is_proxy_name (trim_space "HTTPS_PROXY") ≡ true)
    × (is_proxy_name (trim_space "HTTP_PROXY") ≡ true)
    × (is_proxy_name (trim_space "NO_PROXY") ≡ true)
unfolding trim_space
trimmed = (refl, refl, refl)

find_env-env_if_set :
    (name key content : String)
    → find_env name (env_if_set key content) ≡ (if key == name then if_set content else none)
unfolding find_env
find_env-env_if_set name key content = elim (Bool-cases (is_empty content)) [
  | inl e ↦ rw e (ground arith)
  | inr e ↦ rw e refl
]

abbrev set_by : String → String → String → Option String
set_by key content name = if key == name then if_set content else none

find_env-proxy_envs :
    (proxy : Proxy) (name : String)
    → find_env name (proxy_envs proxy)
      ≡ or_else (set_by "HTTPS_PROXY" proxy.https_proxy name) (
          or_else
            (set_by "HTTP_PROXY" proxy.http_proxy name)
            (set_by "NO_PROXY" proxy.no_proxy name))
unfolding proxy_envs
find_env-proxy_envs proxy name =
    let https = env_if_set "HTTPS_PROXY" proxy.https_proxy in
    let http = env_if_set "HTTP_PROXY" proxy.http_proxy in
    let no_proxy = env_if_set "NO_PROXY" proxy.no_proxy in
    rw (
      find_env-append name https (http ++ no_proxy),
      find_env-append name http no_proxy,
      find_env-env_if_set name "HTTPS_PROXY" proxy.https_proxy,
      find_env-env_if_set name "HTTP_PROXY" proxy.http_proxy,
      find_env-env_if_set name "NO_PROXY" proxy.no_proxy,
    )

-- With none of the three names, the configuration sets nothing.
configured-or_else :
    (proxy : Proxy) (name : String) (original : Option String)
    → or_else (if is_proxy_name (trim_space name) then none else original) (
        or_else (set_by "HTTPS_PROXY" proxy.https_proxy name) (
          or_else
            (set_by "HTTP_PROXY" proxy.http_proxy name)
            (set_by "NO_PROXY" proxy.no_proxy name)))
      ≡ configured proxy name original
configured-or_else proxy name original = elim (Bool-cases (name == "HTTPS_PROXY")) [
  | inl e ↦ rw ((eq_iff name "HTTPS_PROXY").0 e, trimmed.0) (ground arith)
  | inr https ↦ elim (Bool-cases (name == "HTTP_PROXY")) [
    | inl e ↦ rw ((eq_iff name "HTTP_PROXY").0 e, trimmed.1) (ground arith)
    | inr http ↦ elim (Bool-cases (name == "NO_PROXY")) [
      | inl e ↦ rw ((eq_iff name "NO_PROXY").0 e, trimmed.2) refl
      | inr other ↦ ground (
        arith,
        eq_iff name "HTTPS_PROXY",
        eq_iff "HTTPS_PROXY" name,
        eq_iff name "HTTP_PROXY",
        eq_iff "HTTP_PROXY" name,
        eq_iff name "NO_PROXY",
        eq_iff "NO_PROXY" name,
      )
    ]
  ]
]

-- The three variables of a proxy have the contents that the configuration sets, and are not there
-- if it sets none; other spellings of their names are gone; other names are as they were.
pub with_proxy-find_env :
    (proxy : Proxy) (c : Container) (name : String)
    → find_env name (with_proxy proxy c).env ≡ configured proxy name (find_env name c.env)
unfolding with_proxy
with_proxy-find_env proxy c name =
    rw
      (
        find_env-append name (other_envs c.env) (proxy_envs proxy),
        find_env-other_envs name c.env,
        find_env-proxy_envs proxy name,
      )
      (configured-or_else proxy name (find_env name c.env))
