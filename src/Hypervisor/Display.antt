-- ===== src/Hypervisor/Display.antt =====
-- internal/hypervisor/libvirt.go: the XML of a domain, its viewer and its screenshot.
-- `xml.Unmarshal` into the document of `viewerFromXML` is a parameter.
use libvirt_rest_api.Base.{
  ℕ, not, ◌||◌, List, [], ◌∷◌, Option, none, some, Text, text, text_eq, is_set, if◌then◌else◌, ℤ,
  atoi,
}
use libvirt_rest_api.Errors.{Error, Result, ok, err, lit, quoted, plain_error}
use libvirt_rest_api.Service.{Viewer, Screenshot}
use libvirt_rest_api.Hypervisor.{
  Binding, L, ◌>>=◌, pure, request, or_return, about, get_xml, new_stream, screenshot, recv_all,
  context_error, finish, abort, free_stream, free,
}
use libvirt_rest_api.Hypervisor.Lookup.{lookup_domain}
use libvirt_rest_api.Hypervisor.Power.{with_domain}
use libvirt_rest_api.Hypervisor.Reads.{because}

-- An entry of the document of `viewerFromXML`.
pub record GraphicsXml : Type 0 where
  pub kind : Text
  pub listen : Text
  pub port : Text
  pub listener_address : Text

abbrev pub DecodeGraphics : Type 0
DecodeGraphics = Text → Result (List GraphicsXml)

abbrev pub listen_address : GraphicsXml → Text
listen_address g = if is_set g.listen then g.listen else g.listener_address

abbrev pub listen_of : Text → Option Text
listen_of address = if is_set address then some address else none

-- The error of `strconv.Atoi`, for syntax and range alike.
abbrev port_error : Text → Error
port_error port =
    plain_error (lit (text "parse graphics port: strconv.Atoi: parsing ") ∷ quoted port ∷ [])

abbrev pub with_port : GraphicsXml → Option ℤ → Result Viewer
with_port g none = err (port_error g.port)
with_port g (some port) =
    ok (record { kind = g.kind; listen = listen_of (listen_address g); port = some port })

abbrev pub without_port : GraphicsXml → Viewer
without_port g = record { kind = g.kind; listen = listen_of (listen_address g); port = none }

-- The viewer of the first entry.
unfoldable pub viewer_of : List GraphicsXml → Result Viewer
unfolding atoi
viewer_of [] = ok (record { kind = []; listen = none; port = none })
viewer_of (g ∷ _) =
    if not (is_set g.port) || text_eq g.port (text "-1")
    then ok (without_port g)
    else with_port g (atoi g.port)

abbrev pub viewer_decoded : Result (List GraphicsXml) → Result Viewer
viewer_decoded (ok graphics) = viewer_of graphics
viewer_decoded (err e) = err e

unfoldable pub viewer_from_xml : DecodeGraphics → Text → Result Viewer
unfolding viewer_of
viewer_from_xml decode description = viewer_decoded (decode description)

module _ (binding : Binding) where
  unfoldable pub domain_xml_read : Text → L (Result Text)
  unfolding with_domain
  domain_xml_read identifier = with_domain binding identifier (λ domain.
      request binding (get_xml domain) >>= λ given.
      or_return (about (text "get domain ") identifier (text " XML: ")) given
        (λ description. pure (ok description)))

  unfoldable pub viewer_read : DecodeGraphics → Text → L (Result Viewer)
  unfolding domain_xml_read viewer_from_xml
  viewer_read decode identifier = domain_xml_read identifier >>= λ given.
      or_return (λ e. e) given
        (λ description.
          or_return (about (text "parse domain ") identifier (text " XML: "))
            (viewer_from_xml decode description) (λ viewer. pure (ok viewer)))

  -- The end of the transfer: `select` sees its end, with its error, or that of the context.
  unfoldable pub end_transfer : ℕ → Result (Unit {0}) → Option Error → L (Unit {0})
  end_transfer stream (ok _) none = request binding (finish stream) >>= λ _. pure tt
  end_transfer stream (err _) none = request binding (abort stream)
  end_transfer stream _ (some _) = request binding (abort stream)

  -- The goroutine that fills the pipe, and what it defers.
  unfoldable pub transfer : (domain stream : ℕ) → L (List ℕ)
  unfolding end_transfer
  transfer domain stream = request binding (recv_all stream) >>= λ (image, outcome).
      request binding context_error >>= λ ended. end_transfer stream outcome ended >>= λ _.
      request binding (free domain) >>= λ _.
      request binding (free_stream stream) >>= λ _. pure image

  abbrev pub mime_or_default : Text → Text
  mime_or_default mime = if is_set mime then mime else text "application/octet-stream"

  unfoldable pub captured : Text → (domain stream : ℕ) → Result Text → L (Result Screenshot)
  unfolding transfer
  captured identifier domain stream (err e) = request binding (free_stream stream) >>= λ _.
      request binding (free domain) >>= λ _.
      pure (err (about (text "capture domain ") identifier (text " screenshot: ") e))
  captured identifier domain stream (ok mime) = transfer domain stream >>= λ image.
      pure (ok (record { content_type = mime_or_default mime; image = image }))

  unfoldable pub on_stream : Text → ℕ → Result ℕ → L (Result Screenshot)
  unfolding captured
  on_stream identifier domain (err e) =
      request binding (free domain) >>= λ _. pure (err (because "create screenshot stream: " e))
  on_stream identifier domain (ok stream) =
      request binding (screenshot domain stream) >>= captured identifier domain stream

  unfoldable pub screenshot_read : Text → L (Result Screenshot)
  unfolding on_stream
  screenshot_read identifier = lookup_domain binding identifier >>= λ found.
      or_return (λ e. e) found
        (λ domain. request binding new_stream >>= on_stream identifier domain)
