-- ===== src/Api/Handlers/Stream.antt =====
-- internal/api/server.go: the handler of the event stream. What its loop sees next is the list that
-- `subscribe` answers, and the list's end is the end of the request's context. Frames
-- stand for the text that the loop prints, a flush changes nothing that is modelled.
use libvirt_rest_api.Base.{Bool, not, List, [], ◌∷◌, text, if◌then◌else◌}
use libvirt_rest_api.Errors.{lit_of}
use libvirt_rest_api.Service.{
  Service, subscribe, cancel, Signal, event_received, stream_closed, heartbeat, request_done,
}
use libvirt_rest_api.Api.Http.{
  Handler, M, ◌>>◌, ◌>>=◌, pure, plain_text, event_frame, done, ask, write, write_error,
  write_header, set_header, clear_deadline,
}

-- A write that fails ends the loop.
abbrev pub go_on : M (Unit {0}) → Bool → M (Unit {0})
go_on rest success = if success then rest else pure tt

unfoldable pub event_loop : List Signal → M (Unit {0})
event_loop [] = pure tt
event_loop (stream_closed ∷ rest) = pure tt
event_loop (request_done ∷ rest) = pure tt
event_loop (heartbeat ∷ rest) =
    write (plain_text (text ": heartbeat\n\n")) >>= go_on (event_loop rest)
event_loop (event_received event ∷ rest) =
    write
      (event_frame (if event.stream_reset then text "stream.reset" else text "vm.lifecycle") event)
    >>= go_on (event_loop rest)

abbrev pub can_flush : M Bool
can_flush st = done st.writer.can_flush st

module _ {B : Type 0} (service : Service) where
  unfoldable pub events : Handler B
  unfolding event_loop
  events r = do
    flushes ← can_flush
    if not flushes
        then write_error 500 (text "streaming_unsupported") (lit_of "streaming is unavailable")
        else do
          clear_deadline
          set_header (text "Content-Type") (text "text/event-stream")
          set_header (text "Cache-Control") (text "no-cache")
          set_header (text "Connection") (text "keep-alive")
          write_header 200
          greeted ← write (plain_text (text ": connected\n\n"))
          signals ← ask service (subscribe (r.header (text "Last-Event-ID")))
          event_loop signals
          ask service cancel
