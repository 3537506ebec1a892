-- ===== src/Errors/Responses.antt =====
-- app/errors.py: the status, the code and the message that a ServiceError has for a client, those that a
-- class leaves out taken from its base class. Other exceptions have none.
use service_of_import.Prelude.{ℕ, Text, codes, Option, none, some}
use service_of_import.Errors.{Exn}

pub record ServiceError : Type 0 where
  pub status_code : ℕ
  pub code : Text
  pub public_message : Text

-- The class ServiceError itself.
abbrev pub internal_error : ServiceError
internal_error = record {
  status_code = 500;
  code = codes "internal_error";
  public_message = codes "An internal error occurred";
}

abbrev pub storage_unavailable_error : ServiceError
storage_unavailable_error = record {
  status_code = 503;
  code = codes "storage_unavailable";
  public_message = codes "Object storage is temporarily unavailable";
}

unfoldable pub service_error : Exn → Option ServiceError
service_error Exn.file_too_large = some (record {
  status_code = 413;
  code = codes "file_too_large";
  public_message = codes "The uploaded file exceeds the maximum allowed size";
})
service_error Exn.storage_unavailable = some storage_unavailable_error
service_error Exn.dependency_unavailable = some (record {
  status_code = 503;
  code = codes "dependency_unavailable";
  public_message = codes "A required service is temporarily unavailable";
})
service_error Exn.object_not_found = some (record storage_unavailable_error {
  code = codes "object_not_found";
  public_message = codes "The requested object was not found";
})
service_error Exn.report_not_found = some (record {
  status_code = 404;
  code = codes "report_not_found";
  public_message = codes "Report not found";
})
service_error Exn.warehouse_not_found = some (record {
  status_code = 404;
  code = codes "warehouse_not_found";
  public_message = codes "Warehouse not found";
})
service_error Exn.product_not_found = some (record {
  status_code = 404;
  code = codes "product_not_found";
  public_message = codes "Product not found";
})
service_error Exn.report_persistence = some internal_error
service_error Exn.original_object_missing = some (record internal_error {
  code = codes "original_object_missing";
  public_message = codes "The original report file is unavailable";
})
service_error Exn.lock_connection_lost = none
service_error Exn.report_not_ready = none
service_error Exn.validation_incomplete = none
service_error Exn.value_error = none
service_error Exn.index_error = none
service_error Exn.database_error = none
service_error Exn.hook_error = none
service_error Exn.boto_core_error = none
service_error (Exn.client_error code) = none
