-- ===== src/ImageServer/Page.antt =====
-- The page of images that `connection_handler` of Lab01/zad5/server5.cpp puts together.
pub mod Laws
use pus.Base.{
  ℕ, zero, suc, Bool, true, false, ◌&&◌, ◌||◌, not, Option, none, some, List, [], ◌∷◌, ◌++◌, ◌≡◌,
  ◌∙◌, refl, ap, sym, ◌-◌, length, if◌then◌else◌, ltb, Bool-cases, inl, inr, arith,
}
use mathlib.Core.List.{append_assoc}
use pus.Base.Text.{Text, codes, str_eq, contains, split_at, is_text, c_string, c_string-append}
use pus.Base.Buffer.{zeros, is_text-append}
use pus.Base.Program.{Result, ok, fails, bind, out_of_bounds}
use pus.Base.Strings.{strcpy, strcat, filled, filled-strcat, filled-strcpy}

abbrev pub max_buffor_size : ℕ
max_buffor_size = 512

-- `blank_response_header`
abbrev pub header : Text
header = codes "HTTP/1.0 200 OK\nContent-Type: image\nContent-Length:512\n\n"

abbrev pub page_start : Text
page_start = codes "<HTML><BODY><CENTER>"

abbrev pub page_end : Text
page_end = codes "</CENTER></BODY></HTML>"

abbrev pub image_start : Text
image_start = codes "<IMG SRC='"

abbrev pub image_end : Text
image_end = codes "'/></IMG><BR />"

-- A file that the page shows: for a path with a slash any image, for another the files that have it
-- in their names.
unfoldable pub is_chosen : Text → Text → Bool
is_chosen p name =
    not (str_eq name (codes ".") || str_eq name (codes "..")) && elim (split_at b'/' p) [
      | none ↦ contains name p
      | some parts ↦
          contains name (codes ".png")
          || contains name (codes ".jpg")
          || contains name (codes ".jpeg")
    ]

unfoldable pub add_image : Text → List ℕ → Result (List ℕ)
unfolding strcat
add_image name buff =
    bind (strcat image_start buff) λ b1. bind (strcat name b1) λ b2. strcat image_end b2

-- The loop over the files.
unfoldable pub add_images : Text → List Text → List ℕ → Result (List ℕ)
unfolding is_chosen add_image
add_images p [] buff = ok buff
add_images p (name ∷ names) buff = elim (is_chosen p name) [
  | true ↦ bind (add_image name buff) λ b. add_images p names b
  | false ↦ add_images p names buff
]

-- From `memset` to the end of the page.
unfoldable pub fill_page : Text → List Text → Result (List ℕ)
unfolding strcpy strcat add_images
fill_page p names =
    bind (strcpy header (zeros max_buffor_size))
      λ b0. bind (strcat page_start b0) λ b1. bind (add_images p names b1) λ b2. strcat page_end b2
