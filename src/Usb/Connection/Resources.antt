-- ===== src/Usb/Connection/Resources.antt =====
-- What `close` of src/usb_device.cpp gives back.
use s4_mk1_usb2midi.Common.{false, none, [], ◌∷◌, ◌≡◌, refl}
use s4_mk1_usb2midi.Usb.Connection.{close, release_handle, UsbDevice, delete_device, exit_context}

-- `close` releases the interface and closes the handle exactly when the device is open; after it the
-- device is neither open nor marked as disconnected, and closing or destroying it again gives no
-- handle back twice.
pub close_lem :
    (d : UsbDevice)
    → ((close d).calls ≡ release_handle d.handle d.options.interface_number)
      × ((close d).device.handle ≡ none)
      × ((close d).device.disconnected ≡ false)
      × ((close d).device.options ≡ d.options)
      × ((close (close d).device).calls ≡ [])
      × (delete_device (close d).device ≡ exit_context ∷ [])
unfolding close release_handle delete_device
close_lem d = (refl, refl, refl, refl, refl, refl)
