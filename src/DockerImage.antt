-- ===== src/DockerImage.antt =====
-- app/grpc/appmanager/common/common.go: `ValidateDockerImage`. The registry client is a parameter.
use grpc_gw_controller.Base.{
  Option, none, some, Bool, false, List, [], ◌∷◌, ◌++◌, Outcome, ok, err, panic, ◌>>=◌, ◌>>◌,
  if◌then◌else◌, bytes_eq, ◌||◌, ◌==◌,
}
use grpc_gw_controller.Base.Text.{Bytes, bytes, contains, has_prefix}

-- github.com/heroku/docker-registry-client/registry: `connect` is `New` or `NewInsecure`, and
-- `tags` is the method `Tags`, of the registry at a URL.
pub record Registry : Type 0 where
  pub connect : Bytes → Option Bytes
  pub connect_insecure : Bytes → Option Bytes
  pub tags : Bytes → Bytes → Outcome Bytes (List Bytes)

-- `strings.SplitN(s, "/", 2)`: what stands before the first slash, and what stands behind it.
unfoldable pub split_slash : Bytes → Bytes × Option Bytes
split_slash [] = ([], none)
split_slash (c ∷ s) =
    let (before, behind) = split_slash s in if c == b'/' then ([], some s) else (c ∷ before, behind)

abbrev pub mem_tag : Bytes → List Bytes → Bool
mem_tag tag [] = false
mem_tag tag (t ∷ ts) = bytes_eq t tag || mem_tag tag ts

-- `(Unit, error)`: a nil error is `ok tt`.
abbrev pub Check : Type 0
Check = Outcome Bytes (Unit {0})

abbrev connected : Bytes → Option Bytes → Check
connected name none = ok tt
connected name (some e) =
    err (bytes "cannot connect to the registry " ++ (name ++ (bytes " : " ++ e)))

abbrev listed : Bytes → Bytes → Outcome Bytes (List Bytes) → Outcome Bytes (List Bytes)
listed image name (ok ts) = ok ts
listed image name (err e) = err (
    bytes "repo "
    ++ (image ++ (bytes " not found in the registry " ++ (name ++ (bytes ": " ++ e)))))
listed image name panic = panic

abbrev tagged : Bytes → Bytes → List Bytes → Check
tagged repo tag ts =
    if mem_tag tag ts
    then ok tt
    else err (bytes "image " ++ (repo ++ (bytes ":" ++ (tag ++ bytes " not found "))))

abbrev pub docker_hub_url : Bytes
docker_hub_url = bytes "https://registry-1.docker.io/"

module _ (private_registry : Bytes) (registry : Registry) where
  abbrev in_private : Bytes → Bytes → Bytes × Option Bytes → Check
  in_private repo tag (host, none) =
      err (bytes "unsupported  docker repository format [ " ++ (repo ++ bytes " ]"))
  in_private repo tag (host, some image) = do
    connected host (registry.connect (bytes "http://" ++ host))
    ts ← listed image host (registry.tags (bytes "http://" ++ host) image)
    tagged repo tag ts

  -- The second piece of the repository's name, which is indexed with no test.
  abbrev hub_image : Bytes → Bytes × Option Bytes → Outcome Bytes Bytes
  hub_image repo (host, none) = panic
  hub_image repo (host, some image) = ok image

  abbrev in_hub : Bytes → Bytes → Check
  in_hub repo tag = do
    connected docker_hub_url (registry.connect_insecure docker_hub_url)
    image ←
        if has_prefix repo (bytes "docker.io") then hub_image repo (split_slash repo) else ok repo
    ts ← listed image docker_hub_url (registry.tags docker_hub_url image)
    tagged repo tag ts

  unfoldable pub validate_docker_image : Bytes → Bytes → Check
  validate_docker_image repo tag =
      if contains repo private_registry
      then in_private repo tag (split_slash repo)
      else in_hub repo tag
