-- ===== src/Requests.antt =====
-- What all resolvers share: the arguments of a page, and the shape of errors.
pub mod Pagination
pub mod Errors
