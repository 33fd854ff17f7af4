-- ===== src/Operations/Start/Released.antt =====
-- What `start` leaves of the marker of its port.
use llauncher.Host.Framed.{Framed}
use llauncher.Core.Marker.Unmarked.{Unmarked}
