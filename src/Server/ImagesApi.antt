-- ===== src/Server/ImagesApi.antt =====
-- internal/server/images.go: the /images endpoints over the image store. Each handler returns the
-- store after it with the reply. The pull's two progress lines are the list that create returns.
pub mod Pull
use docker_in_kubernetes.Prelude.{
  ℕ, Bool, Option, none, some, List, [], ◌∷◌, ◌++◌, map, Text, text, if◌then◌else◌, contains,
  cut_suffix,
}
use docker_in_kubernetes.Images
use docker_in_kubernetes.Images.{Record, Store, record_pull, list, find, remove, record_id}
use docker_in_kubernetes.Server.Reply.{Reply, write_json, write_error}

-- The fields of dockerapi.ImageSummary and dockerapi.ImageInspect that depend on the record.
pub record ImageSummary : Type 0 where
  pub id : Text
  pub repo_tags : List Text
  pub created : ℕ

-- One element of the answer to DELETE /images/{name}.
pub data ImageDeleteItem : Type 0 where
  untagged deleted : Text → ImageDeleteItem

-- One line of the pull's progress.
pub record Progress : Type 0 where
  pub status : Text
  pub id : Option Text

unfoldable pub build_ref : Text → Text → Text
build_ref from_image tag =
    if contains from_image b'@'
    then from_image
    else elim tag [ [] ↦ from_image ++ text ":latest" | c ∷ rest ↦ from_image ++ b':' ∷ c ∷ rest ]

unfoldable pub display_tag : Text → Text
display_tag [] = text "latest"
display_tag (c ∷ tag) = c ∷ tag

unfoldable pub create : Store → Text → Text → ℕ → Store × Reply (List Progress)
unfolding build_ref display_tag
create s [] tag now = (s, write_error 400 (text "fromImage is required"))
create s (c ∷ from_image) tag now =
    let ref : Text = build_ref (c ∷ from_image) tag in
    (
      (record_pull s ref tag now).0,
      write_json 200 (
          record { status = text "Pulling from " ++ (c ∷ from_image); id = some (display_tag tag) }
          ∷ record { status = text "Status: Image is up to date for " ++ ref; id = none }
          ∷ []),
    )

module _ (sha256_hex : Text → Text) where
  abbrev pub summary : Record → ImageSummary
  summary r = record { id = record_id sha256_hex r; repo_tags = r.ref ∷ []; created = r.pulled_at }

  unfoldable pub list_images : Store → Reply (List ImageSummary)
  list_images s = write_json 200 (map summary (list s))

  unfoldable pub inspect : Store → Text → Reply ImageSummary
  inspect s name = elim (find sha256_hex s name) [
    | some r ↦ write_json 200 (summary r)
    | none ↦ write_error 404 (text "No such image: " ++ name)
  ]

  unfoldable pub delete_image : Store → Text → Store × Reply (List ImageDeleteItem)
  delete_image s name = elim (remove sha256_hex s name) [
    | some (r, s') ↦ (s', write_json 200 (untagged r.ref ∷ deleted (record_id sha256_hex r) ∷ []))
    | none ↦ (s, write_error 404 (text "No such image: " ++ name))
  ]

  -- GET /images/<name>/json.
  unfoldable pub route_get : Store → Text → Reply ImageSummary
  route_get s path = elim (cut_suffix path (text "/json")) [
    | some [] ↦ write_error 404 (text "page not found")
    | some (c ∷ name) ↦ inspect s (c ∷ name)
    | none ↦ write_error 404 (text "page not found")
  ]

  -- DELETE /images/<name>.
  unfoldable pub route_delete : Store → Text → Store × Reply (List ImageDeleteItem)
  route_delete s [] = (s, write_error 400 (text "image name required"))
  route_delete s (c ∷ name) = delete_image s (c ∷ name)
