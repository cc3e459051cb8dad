-- ===== src/ImageServer/Page/Laws.antt =====
-- The page of images of Lab01/zad5/server5.cpp as a text.
use mathlib.Core.List.{append_assoc, append-nil}
use pus.Base.{
  ℕ, Bool, true, false, ◌&&◌, ◌||◌, not, none, some, ◌==◌, if◌then◌else◌, ◌-◌, length, ltb, List,
  [], ◌∷◌, ◌++◌, ◌≡◌, ◌∙◌, refl, ap, sym, Bool-cases, inl, inr, both, arith,
}
use pus.Base.Text.{Text, codes, str_eq, contains, split_at, is_text}
use pus.Base.Buffer.{zeros, is_text-append}
use pus.Base.Program.{Result, ok, fails, bind, out_of_bounds}
use pus.Base.Strings.{strcat, bind_ok, filled, filled-strcat, filled-strcpy}
use pus.ImageServer.Page.{
  max_buffor_size, header, page_start, page_end, image_start, image_end, is_chosen, add_image,
  add_images, fill_page,
}

-- One of the words is in the name.
unfoldable pub has_one : Text → List Text → Bool
has_one name [] = false
has_one name (word ∷ words) = contains name word || has_one name words

unfoldable pub has_slash : Text → Bool
has_slash [] = false
has_slash (c ∷ text) = c == b'/' || has_slash text

-- The files that a page is to show.
unfoldable pub is_shown : Text → Text → Bool
unfolding has_one has_slash
is_shown p name =
    not (str_eq name (codes "."))
    && (not (str_eq name (codes ".."))
        && (if has_slash p
            then has_one name (codes ".png" ∷ codes ".jpg" ∷ codes ".jpeg" ∷ [])
            else contains name p))

unfoldable pub shown : Text → List Text → List Text
unfolding is_shown
shown p [] = []
shown p (name ∷ names) = elim (is_shown p name) [
  | true ↦ name ∷ shown p names
  | false ↦ shown p names
]

abbrev pub image : Text → Text
image name = codes "<IMG SRC='" ++ (name ++ codes "'/></IMG><BR />")

unfoldable pub images : List Text → Text
images [] = []
images (name ∷ names) = image name ++ images names

abbrev pub page_front : Text
page_front =
    codes "HTTP/1.0 200 OK\nContent-Type: image\nContent-Length:512\n\n<HTML><BODY><CENTER>"

-- The whole page.
unfoldable pub page : Text → List Text → Text
unfolding images shown
page p names = page_front ++ (images (shown p names) ++ codes "</CENTER></BODY></HTML>")

split_at-has_slash :
    (text : Text) → elim (split_at b'/' text) [ none ↦ false | some parts ↦ true ] ≡ has_slash text
unfolding split_at has_slash
split_at-has_slash [] = refl
split_at-has_slash (c ∷ text) = ground (arith, split_at-has_slash text)

is_chosen-is_shown : (p name : Text) → is_chosen p name ≡ is_shown p name
unfolding is_chosen is_shown has_one
is_chosen-is_shown p name = ground (arith, split_at-has_slash p)

unfoldable pub are_texts : List Text → Bool
are_texts [] = true
are_texts (name ∷ names) = is_text name && are_texts names

bind-bind :
    (r : Result (List ℕ)) (f g : List ℕ → Result (List ℕ))
    → bind r (λ b. bind (f b) g) ≡ bind (bind r f) g
bind-bind (ok l) f g = refl
bind-bind (fails e) f g = refl

bind-ext :
    (r : Result (List ℕ)) (f g : List ℕ → Result (List ℕ))
    → ((l : List ℕ) → f l ≡ g l)
    → bind r f ≡ bind r g
bind-ext (ok l) f g h = h l
bind-ext (fails e) f g h = refl

module _ (p name : Text) (names : List Text) where
  add_images_chosen :
      is_chosen p name ≡ true
      → (buff : List ℕ)
      → add_images p (name ∷ names) buff ≡ bind (add_image name buff) (add_images p names)
  unfolding add_images
  add_images_chosen h buff = ground arith

  add_images_other :
      is_chosen p name ≡ false
      → (buff : List ℕ) → add_images p (name ∷ names) buff ≡ add_images p names buff
  unfolding add_images
  add_images_other h buff = ground arith

  shown_chosen : is_shown p name ≡ true → shown p (name ∷ names) ≡ name ∷ shown p names
  unfolding shown
  shown_chosen h = ground arith

  shown_other : is_shown p name ≡ false → shown p (name ∷ names) ≡ shown p names
  unfolding shown
  shown_other h = ground arith

filled-add_image :
    (size : ℕ) (text name : Text)
    → is_text text ≡ true
    → is_text name ≡ true
    → bind (filled size text) (add_image name) ≡ filled size (text ++ image name)
unfolding add_image is_text
filled-add_image size text name h k =
    bind-bind (filled size text) (strcat image_start) (λ b. bind (strcat name b) (strcat image_end))
    ∙ ap (λ (r : Result (List ℕ)). bind r (λ b. bind (strcat name b) (strcat image_end)))
        (filled-strcat size text image_start h)
    ∙ bind-bind (filled size (text ++ image_start)) (strcat name) (strcat image_end)
    ∙ ap (λ (r : Result (List ℕ)). bind r (strcat image_end))
        (filled-strcat size (text ++ image_start) name (is_text-append text image_start h refl))
    ∙ filled-strcat size ((text ++ image_start) ++ name) image_end
        (is_text-append (text ++ image_start) name (is_text-append text image_start h refl) k)
    ∙ ap (filled size) (
        append_assoc (text ++ image_start) name image_end
        ∙ append_assoc text image_start (name ++ image_end))

image-is_text : (name : Text) → is_text name ≡ true → is_text (image name) ≡ true
unfolding is_text
image-is_text name h =
    is_text-append image_start (name ++ image_end) refl (is_text-append name image_end h refl)

images-is_text : (names : List Text) → are_texts names ≡ true → is_text (images names) ≡ true
unfolding images are_texts is_text
images-is_text [] h = refl
images-is_text (name ∷ names) h =
    is_text-append (image name) (images names) (image-is_text name (ground arith))
      (images-is_text names (ground arith))

shown-are_texts :
    (p : Text) (names : List Text) → are_texts names ≡ true → are_texts (shown p names) ≡ true
unfolding shown are_texts
shown-are_texts p [] h = refl
shown-are_texts p (name ∷ names) h = ground (arith, shown-are_texts p names (ground arith))

filled-add_none :
    (size : ℕ) (p text : Text)
    → bind (filled size text) (add_images p []) ≡ filled size (text ++ images (shown p []))
unfolding add_images images shown
filled-add_none size p text = bind_ok (filled size text) ∙ ap (filled size) (sym (append-nil text))

are_texts-parts :
    (name : Text) (names : List Text)
    → are_texts (name ∷ names) ≡ true
    → (is_text name ≡ true) × (are_texts names ≡ true)
unfolding are_texts
are_texts-parts name names h = both (is_text name) (are_texts names) h

images_cons : (name : Text) (names : List Text) → image name ++ images names ≡ images (name ∷ names)
unfolding images
images_cons name names = refl

filled-add_images :
    (size : ℕ) (p text : Text) (names : List Text)
    → is_text text ≡ true
    → are_texts names ≡ true
    → bind (filled size text) (add_images p names) ≡ filled size (text ++ images (shown p names))
filled-add_images size p text [] h k = filled-add_none size p text
filled-add_images size p text (name ∷ names) h k =
    let (is_name, are_names) = are_texts-parts name names k in
    elim (Bool-cases (is_chosen p name)) [
      | inl chosen ↦
          bind-ext (filled size text) (add_images p (name ∷ names))
            (λ b. bind (add_image name b) (add_images p names))
            (add_images_chosen p name names chosen)
          ∙ bind-bind (filled size text) (add_image name) (add_images p names)
          ∙ ap (λ (r : Result (List ℕ)). bind r (add_images p names))
              (filled-add_image size text name h is_name)
          ∙ filled-add_images size p (text ++ image name) names
              (is_text-append text (image name) h (image-is_text name is_name)) are_names
          ∙ ap (filled size) (
              append_assoc text (image name) (images (shown p names))
              ∙ ap (λ (l : Text). text ++ l)
                  (images_cons name (shown p names)
                    ∙ ap images (
                        sym
                          (shown_chosen p name names (sym (is_chosen-is_shown p name) ∙ chosen)))))
      | inr left_out ↦
          bind-ext (filled size text) (add_images p (name ∷ names)) (add_images p names)
            (add_images_other p name names left_out)
          ∙ filled-add_images size p text names h are_names
          ∙ ap (λ (l : List Text). filled size (text ++ images l))
              (sym (shown_other p name names (sym (is_chosen-is_shown p name) ∙ left_out)))
    ]

pub fill_page-filled :
    (p : Text) (names : List Text)
    → are_texts names ≡ true
    → fill_page p names ≡ filled max_buffor_size (page p names)
unfolding fill_page page is_text
fill_page-filled p names h =
    let begun = header ++ page_start in
    let begun_text : is_text begun ≡ true = refl in
    let shown_images = images (shown p names) in
    ap
      (λ (r : Result (List ℕ)).
        bind r (λ b0.
          bind (strcat page_start b0) (λ b1. bind (add_images p names b1) (strcat page_end))))
      (filled-strcpy 511 header)
    ∙ bind-bind (filled max_buffor_size header) (strcat page_start)
        (λ b1. bind (add_images p names b1) (strcat page_end))
    ∙ ap (λ (r : Result (List ℕ)). bind r (λ b1. bind (add_images p names b1) (strcat page_end)))
        (filled-strcat max_buffor_size header page_start refl)
    ∙ bind-bind (filled max_buffor_size begun) (add_images p names) (strcat page_end)
    ∙ ap (λ (r : Result (List ℕ)). bind r (strcat page_end))
        (filled-add_images max_buffor_size p begun names begun_text h)
    ∙ filled-strcat max_buffor_size (begun ++ shown_images) page_end (
        is_text-append begun shown_images begun_text
          (images-is_text (shown p names) (shown-are_texts p names h)))
    ∙ ap (filled max_buffor_size) (append_assoc begun shown_images page_end)

pub page-is_text :
    (p : Text) (names : List Text) → are_texts names ≡ true → is_text (page p names) ≡ true
unfolding page is_text
page-is_text p names h =
    is_text-append (header ++ page_start) (images (shown p names) ++ page_end) refl (
      is_text-append (images (shown p names)) page_end
        (images-is_text (shown p names) (shown-are_texts p names h)) refl)

-- For names that are texts: the buffer of 512 bytes holds the page and zeros behind it, if the page is
-- shorter than the buffer, and else it is overrun. The page has the header, and in the order of
-- the folder an image for each file, `.` and `..` left out, that has the path in its name, or, if
-- there is a slash in the path, that has `.png`, `.jpg` or `.jpeg` in its name.
pub fill_page-page :
    (p : Text) (names : List Text)
    → are_texts names ≡ true
    → fill_page p names ≡ (
        if ltb (length (page p names)) max_buffor_size
        then ok (page p names ++ zeros (max_buffor_size - length (page p names)))
        else fails out_of_bounds)
unfolding filled
fill_page-page p names h = fill_page-filled p names h
