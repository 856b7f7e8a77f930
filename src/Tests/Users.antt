-- ===== src/Tests/Users.antt =====
-- Runs of the library of user space.
use box_kernel.Base.{false, none, some}
use box_kernel.Events.{Response, EventStatus, response_init}
use box_kernel.UserApi.{UserApi}
use box_kernel.Tests.Data.{wrapped}

response : Response
response = response_init 3 EventStatus.success

abbrev api : UserApi
api = record {
  to_kernel_ring = none;
  from_kernel_ring = some (wrapped response);
  response_cache = λ _. response;
  response_cache_valid = λ _. false;
  current_user_id = 1;
}
